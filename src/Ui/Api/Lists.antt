-- ===== src/Ui/Api/Lists.antt =====
-- The answers of `HandleSetExclusions` and `HandleSetIPRules` of internal/ui/api.go.
use caddy_waf_ui.Prelude.{◌≡◌, Option, some, List, [], ◌∷◌}
use caddy_waf_ui.Text.{Bytes, str}
use caddy_waf_ui.Errors.{Error, DomainFault, Sentinel, ok, err}
use caddy_waf_ui.System.{World, Context, ◌>>◌}
use caddy_waf_ui.System.Store.{lookup}
use caddy_waf_ui.System.Ends.{Ends}
use caddy_waf_ui.System.Unmarked.{Unmarked}
use caddy_waf_ui.Config.{managed_dir}
use caddy_waf_ui.Files.Naming.{exclusions_config_path, ip_rules_config_path}
use caddy_waf_ui.Waf.Exclusions.{Exclusion, validate_exclusions}
use caddy_waf_ui.IpRules.{IpRules, Net, validate_ip_rules}
use caddy_waf_ui.Service.Validate.{validate_domain}
use caddy_waf_ui.Service.Chain.{Reloader}
use caddy_waf_ui.Service.Chain.Outcome.{Applied, Refused, IsAccepted}
use caddy_waf_ui.Service.Updates.{exclusions_opts, update_exclusions}
use caddy_waf_ui.Service.Updates.Modes.{Apart, Generated}
use caddy_waf_ui.Service.IpUpdates.{ip_rules_opts, update_ip_rules, RulesWritten}
use caddy_waf_ui.Web.Http.{Request, Answer}
use caddy_waf_ui.Web.Reply.{http_error}
use caddy_waf_ui.Ui.Api.{Reading, Codec, decoded, decode_json_body, client_ip, domain_known}
use caddy_waf_ui.Ui.Api.Endings.{Unread}

-- Why a request for a list is turned down: its body, its list or its domain.
pub data BadList {A : Type 0} (codec : Codec) (read : Bytes → Reading A) (check : A → Option Error)
    (d : Bytes) (r : Request) : Answer → Type 0 where
  list_unread : (a : Answer) → Unread r a → BadList codec read check d r a
  list_refused :
      (list : A) (e : Error)
      → decode_json_body read r ≡ decoded list
      → check list ≡ some e
      → BadList codec read check d r (http_error 400 (codec.error_text e))
  list_domain :
      (fault : DomainFault)
      → validate_domain d ≡ some fault
      → BadList codec read check d r (http_error 400 (str "Invalid domain"))

abbrev list_known : List (Sentinel × Bytes)
list_known = domain_known ∷ []

module _ (reloader : Reloader) (codec : Codec) (net : Net) (ctx : Context) (d : Bytes) (r : Request)
    (reloads : Unmarked reloader.run) (apart : Apart ctx d) (w : World) where
  -- The chain ran for the list that the body holds.
  pub record ExclusionsApplied (v : World) : Type 0 where
    exclusions : List Exclusion
    read : decode_json_body codec.exclusions r ≡ decoded exclusions
    accepted : IsAccepted d (validate_exclusions exclusions)
    returned : update_exclusions reloader ctx d exclusions (client_ip r) w ≡ (ok tt, v)
    outcome :
        Applied d
          (client_ip r)
          (exclusions_opts ctx d exclusions (client_ip r))
          (Generated ctx d exclusions)
          w.trail
          v

  pub record ExclusionsLost (e : Error) (v : World) : Type 0 where
    exclusions : List Exclusion
    read : decode_json_body codec.exclusions r ≡ decoded exclusions
    accepted : IsAccepted d (validate_exclusions exclusions)
    returned : update_exclusions reloader ctx d exclusions (client_ip r) w ≡ (err e, v)
    outcome :
        Refused d
          (client_ip r)
          (exclusions_opts ctx d exclusions (client_ip r))
          (lookup (exclusions_config_path (managed_dir ctx.env) d) w.disk)
          w.trail
          e
          v

  pub record RulesApplied (v : World) : Type 0 where
    rules : IpRules
    read : decode_json_body codec.ip_rules r ≡ decoded rules
    accepted : IsAccepted d (validate_ip_rules net rules)
    returned : update_ip_rules reloader net ctx d rules (client_ip r) w ≡ (ok tt, v)
    outcome :
        Applied d
          (client_ip r)
          (ip_rules_opts net ctx d rules (client_ip r))
          (RulesWritten net ctx d rules)
          w.trail
          v

  pub record RulesLost (e : Error) (v : World) : Type 0 where
    rules : IpRules
    read : decode_json_body codec.ip_rules r ≡ decoded rules
    accepted : IsAccepted d (validate_ip_rules net rules)
    returned : update_ip_rules reloader net ctx d rules (client_ip r) w ≡ (err e, v)
    outcome :
        Refused d
          (client_ip r)
          (ip_rules_opts net ctx d rules (client_ip r))
          (lookup (ip_rules_config_path (managed_dir ctx.env) d) w.disk)
          w.trail
          e
          v
