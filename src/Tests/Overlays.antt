-- ===== src/Tests/Overlays.antt =====
-- The generators of overlays at concrete inputs.
use caddy_waf_ui.Prelude.{◌≡◌, ◌↔◌, refl, sym, false, none, some, List, [], ◌∷◌, All}
use caddy_waf_ui.Text.{str, beq, is_digit}
use caddy_waf_ui.Domain.Model.{Site}
use caddy_waf_ui.Waf.Exclusions.{
  Exclusion, validate_exclusions, check_value, check_param, dedupe_exclusions, generate_exclusions,
}
use caddy_waf_ui.Waf.Exclusions.Valid.{IsExclusion, validate_exclusions_iff}
use caddy_waf_ui.Waf.Exclusions.Deduped.{IsDeduped, dedupe_exclusions-IsDeduped}
use caddy_waf_ui.Waf.Exclusions.Generated.{Overlay, generate_exclusions-Overlay}
use caddy_waf_ui.IpRules.{IpRules, Net, generate_rules, validate_ip_rules}
use caddy_waf_ui.IpRules.Arguments.{PrintsAddresses, is_address_byte}
use caddy_waf_ui.IpRules.Rendered.{Rendered, generate_rules-Rendered}
use caddy_waf_ui.Service.Chain.Outcome.{Updated}
use caddy_waf_ui.Service.IpUpdates.{
  ip_rules_opts, update_ip_rules, RulesWritten, update_ip_rules-Applied,
}
use caddy_waf_ui.Tests.Setting.{site_name, context, world}
use caddy_waf_ui.Tests.Caddy.{live_reloader}
use caddy_waf_ui.Tests.Service.{managed_dir-Apart}

abbrev by_id : Exclusion
by_id = record { type = str "id"; value = str "942100"; param = str "q" }

abbrev injected : Exclusion
injected = record { type = str "tag"; value = str "sql\nSecRuleEngine Off"; param = [] }

abbrev exclusions : List Exclusion
exclusions = by_id ∷ (by_id ∷ [])

abbrev site : Site
site = record { domain = site_name; mode = []; updated = []; degraded = false }

-- Every text is the loopback network.
abbrev net : Net
net = record { parse_cidr = λ entry. some (str "127.0.0.0/8"); parse_ip = λ entry. none }

net-PrintsAddresses : PrintsAddresses net
unfolding is_address_byte is_digit
net-PrintsAddresses = record {
  of_cidr = λ entry text h.
      let same : str "127.0.0.0/8" ≡ text = cc in
      rw (sym same)
        (refl, (refl, (refl, (refl, (refl, (refl, (refl, (refl, (refl, (refl, (refl, tt)))))))))));
  of_ip_text = λ entry text four h. absurd (cc);
}

abbrev rules : IpRules
rules = record { allowlist = []; denylist = str "127.0.0.1/8" ∷ [] }

validate_exclusions_iff_example :
    (validate_exclusions (injected ∷ []) ≡ none) ↔ All IsExclusion (injected ∷ [])
validate_exclusions_iff_example = validate_exclusions_iff (injected ∷ [])

exclusions-valid : All IsExclusion exclusions
unfolding validate_exclusions check_value check_param beq is_digit
exclusions-valid = (validate_exclusions_iff exclusions).0 refl

dedupe_exclusions-IsDeduped_example : IsDeduped exclusions (dedupe_exclusions exclusions)
dedupe_exclusions-IsDeduped_example = dedupe_exclusions-IsDeduped exclusions exclusions-valid

generate_exclusions-Overlay_example :
    Overlay site exclusions (str "now") (generate_exclusions site exclusions (str "now"))
generate_exclusions-Overlay_example = generate_exclusions-Overlay site exclusions (str "now")

generate_rules-Rendered_example :
    Rendered net site rules (str "now") (generate_rules net site rules (str "now"))
generate_rules-Rendered_example =
    generate_rules-Rendered net net-PrintsAddresses site rules (str "now")

update_ip_rules-Applied_example :
    Updated site_name
      (validate_ip_rules net rules)
      (str "10.0.0.1")
      (ip_rules_opts net context site_name rules (str "10.0.0.1"))
      (RulesWritten net context site_name rules)
      (update_ip_rules live_reloader net context site_name rules (str "10.0.0.1"))
      world
update_ip_rules-Applied_example =
    update_ip_rules-Applied live_reloader net context site_name (str "10.0.0.1") managed_dir-Apart
      rules world
