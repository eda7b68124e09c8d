-- ===== src/Tests/Ui.antt =====
-- The API, the forms and the readers of overlays at concrete inputs.
use caddy_waf_ui.Prelude.{◌≡◌, refl, sym, false, none, some, List, [], ◌∷◌, ◌++◌, if◌then◌else◌}
use caddy_waf_ui.Text.{Bytes, str, beq, is_space, is_digit}
use caddy_waf_ui.Errors.{ok}
use caddy_waf_ui.System.Unmarked.{Unmarked}
use caddy_waf_ui.Domain.Model.{Site}
use caddy_waf_ui.Domain.Overlay.{header}
use caddy_waf_ui.Waf.Exclusions.{
  Exclusion, validate_exclusions, dedupe_exclusions, generate_exclusions, rows_from, render_rows,
  render_row, check_value, check_param, dedupe_from, decimal_text, digits_on,
}
use caddy_waf_ui.IpRules.{IpRules, Net, normalize_entries, normalize_entry, generate_rules, render}
use caddy_waf_ui.Web.Http.{Request}
use caddy_waf_ui.Ui.Overlay.{parse_exclusions_overlay}
use caddy_waf_ui.Ui.Overlay.RoundTrip.{parse_exclusions_overlay-generate_exclusions}
use caddy_waf_ui.Ui.Overlay.Words.{IsWord}
use caddy_waf_ui.Ui.Overlay.Rules.{PrintsWords, ReadsBack, parse_ip_rules_overlay-generate_rules}
use caddy_waf_ui.Ui.Api.{Codec, value, needs_more}
use caddy_waf_ui.Ui.Forms.{handle_form_add_exclusion}
use caddy_waf_ui.Ui.Forms.Adding.{Added, handle_form_add_exclusion-Added}
use caddy_waf_ui.Ui.Overlay.Lines.{literal-Free}
use caddy_waf_ui.Tests.Setting.{site_name, context, world, accepting}
use caddy_waf_ui.Tests.Service.{managed_dir-Apart}

abbrev site : Site
site = record { domain = site_name; mode = []; updated = []; degraded = false }

abbrev bare_id : Exclusion
bare_id = record { type = str "id"; value = str "942100"; param = [] }

abbrev tag_of_param : Exclusion
tag_of_param = record { type = str "tag"; value = str "attack-sqli"; param = str "q" }

abbrev exclusions : List Exclusion
exclusions = bare_id ∷ (tag_of_param ∷ (bare_id ∷ []))

abbrev overlay_text : Bytes
overlay_text =
    str "# Caddy WAF UI managed - do not edit manually\n"
    ++ (str "# domain: api.example.com | updated: 2026-08-07T15:52:13Z\n\n"
        ++ (str "SecRuleRemoveById 942100\n"
            ++ (str "SecRule ARGS:q \"@unconditionalMatch\" \"id:9000001,phase:2,pass,nolog,"
                ++ str "ctl:ruleRemoveByTag=attack-sqli\"\n\n")))

overlay_generated : generate_exclusions site exclusions context.now ≡ ok overlay_text
unfolding generate_exclusions validate_exclusions dedupe_exclusions dedupe_from rows_from
    render_rows render_row check_value check_param beq is_digit header decimal_text digits_on
overlay_generated = refl

parse_exclusions_overlay-generate_exclusions_example :
    parse_exclusions_overlay overlay_text ≡ dedupe_exclusions exclusions
parse_exclusions_overlay-generate_exclusions_example =
    parse_exclusions_overlay-generate_exclusions site exclusions context.now overlay_text
      (literal-Free site_name refl) (literal-Free context.now refl) overlay_generated

-- Every text is the loopback network.
abbrev net : Net
net = record { parse_cidr = λ entry. some (str "127.0.0.0/8"); parse_ip = λ entry. none }

loopback-IsWord : IsWord (str "127.0.0.0/8")
unfolding is_space
loopback-IsWord = record {
  non_empty = cc;
  no_space =
      (refl, (refl, (refl, (refl, (refl, (refl, (refl, (refl, (refl, (refl, (refl, tt)))))))))));
}

net-PrintsWords : PrintsWords net
net-PrintsWords = record {
  of_cidr =
      λ entry text h. let same : str "127.0.0.0/8" ≡ text = cc in rw (sym same) loopback-IsWord;
  of_ip_text = λ entry text four h. absurd (cc);
}

abbrev rules : IpRules
rules = record { allowlist = []; denylist = str "127.0.0.1/8" ∷ [] }

abbrev rules_text : Bytes
rules_text =
    str "# Caddy WAF UI managed - do not edit manually\n"
    ++ (str "# domain: api.example.com | updated: 2026-08-07T15:52:13Z\n\n"
        ++ (str "# Denylist\n@ip_deny_api_example_com {\n    remote_ip 127.0.0.0/8\n}\n"
            ++ str "abort @ip_deny_api_example_com\n\n"))

rules_generated : generate_rules net site rules context.now ≡ ok rules_text
unfolding generate_rules normalize_entries normalize_entry render beq header
    caddy_waf_ui.Domain.Slug.domain_slug caddy_waf_ui.Text.join
rules_generated = refl

parse_ip_rules_overlay-generate_rules_example :
    ReadsBack rules_text
      (normalize_entries net rules.denylist)
      (normalize_entries net rules.allowlist)
parse_ip_rules_overlay-generate_rules_example =
    parse_ip_rules_overlay-generate_rules net net-PrintsWords site rules context.now rules_text
      (literal-Free site_name refl) (literal-Free context.now refl) rules_generated

-- A body is the mode itself, and any body holds the two lists.
abbrev codec : Codec
codec = record {
  mode = λ body. value body;
  exclusions = λ body. value exclusions;
  ip_rules = λ body. value rules;
  backup = λ body. needs_more;
  snapshots = λ infos. str "[]";
  error_text = λ e. str "invalid";
}

abbrev request : Request
request = record {
  method = str "PUT";
  path = str "/api/sites/api.example.com/mode";
  remote_addr = str "10.0.0.9:4711";
  authorization = [];
  forwarded_proto = [];
  session_cookie = none;
  flash_cookie = none;
  form = λ key. if beq key (str "ruleId") then str "930120" else [];
  query = λ key. [];
  body = str "On";
}

handle_form_add_exclusion-Added_example :
    Added accepting net context site_name request managed_dir-Apart
      (literal-Free context.now refl)
      world
      (handle_form_add_exclusion accepting net context site_name request world)
handle_form_add_exclusion-Added_example =
    handle_form_add_exclusion-Added accepting net context site_name request managed_dir-Apart
      (literal-Free context.now refl) world
