-- ===== src/Ui/Overlay/Reading.antt =====
-- What `readExclusions` and `readIPRules` of internal/ui/overlay.go return.
use caddy_waf_ui.Prelude.{◌≡◌, refl, sym, ap, Option, none, some, List, [], if◌then◌else◌}
use caddy_waf_ui.Text.{Bytes}
use caddy_waf_ui.Errors.{Error, not_exist}
use caddy_waf_ui.System.{World, Context, pure, raise, catch, ◌>>=◌}
use caddy_waf_ui.System.Store.{FilePath, lookup}
use caddy_waf_ui.System.Calls.{read_file}
use caddy_waf_ui.System.Ends.{
  Ends, Ends-pure, Ends-raise, Ends-bind, Ends-catch, Ends-read_file, Ends-weaken,
}
use caddy_waf_ui.Config.{managed_dir}
use caddy_waf_ui.Files.Naming.{exclusions_config_path, ip_rules_config_path}
use caddy_waf_ui.Files.Backup.{is_not_exist}
use caddy_waf_ui.Waf.Exclusions.{Exclusion}
use caddy_waf_ui.IpRules.{IpRules}
use caddy_waf_ui.Ui.Overlay.{
  parse_exclusions_overlay, parse_ip_rules_overlay, read_exclusions_file, read_exclusions,
  read_ip_rules_file, read_ip_rules, if_missing,
}

pub record Same (w v : World) : Type 0 where
  pub disk : v.disk ≡ w.disk
  pub trail : v.trail ≡ w.trail

-- What a parser makes of an overlay, and of none.
abbrev pub parsed : {A : Type 0} → (Bytes → A) → A → Option Bytes → A
parsed parse nothing none = nothing
parsed parse nothing (some content) = parse content

read_parsed :
    {A : Type 0} (parse : Bytes → A) (nothing : A) (p : FilePath) (w : World)
    → Ends
        (λ a v. (a ≡ parsed parse nothing (lookup p w.disk)) × Same w v)
        (λ e v. Same w v)
        (catch (do content ← read_file p; pure (parse content)) (if_missing nothing))
        w
read_parsed parse nothing p w =
    Ends-catch (λ e v. (e ≡ not_exist → lookup p w.disk ≡ none) × Same w v) _ _ w
      (Ends-bind (λ content v. (lookup p w.disk ≡ some content) × Same w v) _ _ w
        (Ends-weaken _ _ _ w (Ends-read_file p w)
          (λ content v h. (h.0, record { disk = h.1; trail = h.2 }))
          (λ e v h. (h.0, record { disk = h.1; trail = h.2 })))
        (λ content v h. Ends-pure _ v (ap (parsed parse nothing) (sym h.0), h.1)))
      (λ e v h. missing_or_raised e v h)
  where
    missing_or_raised :
        (e : Error) (v : World)
        → (e ≡ not_exist → lookup p w.disk ≡ none) × Same w v
        → Ends
            (λ a u. (a ≡ parsed parse nothing (lookup p w.disk)) × Same w u)
            (λ f u. Same w u)
            (if is_not_exist e then pure nothing else raise e)
            v
    missing_or_raised not_exist v h =
        Ends-pure nothing v (ap (parsed parse nothing) (sym (h.0 refl)), h.1)
    missing_or_raised _ v h = Ends-raise _ v h.1

-- The exclusions and the rules that the overlays of a domain hold.
unfoldable pub exclusions_in_force : Context → Bytes → World → List Exclusion
exclusions_in_force ctx d w =
    parsed parse_exclusions_overlay []
      (lookup (exclusions_config_path (managed_dir ctx.env) d) w.disk)

unfoldable pub rules_in_force : Context → Bytes → World → IpRules
rules_in_force ctx d w =
    parsed parse_ip_rules_overlay (record { allowlist = []; denylist = [] })
      (lookup (ip_rules_config_path (managed_dir ctx.env) d) w.disk)

pub Ends-read_exclusions :
    (ctx : Context) (d : Bytes) (w : World)
    → Ends
        (λ a v. (a ≡ exclusions_in_force ctx d w) × Same w v)
        (λ e v. Same w v)
        (read_exclusions ctx d)
        w
unfolding read_exclusions read_exclusions_file exclusions_in_force
Ends-read_exclusions ctx d w = read_parsed _ _ _ w

pub Ends-read_ip_rules :
    (ctx : Context) (d : Bytes) (w : World)
    → Ends
        (λ a v. (a ≡ rules_in_force ctx d w) × Same w v)
        (λ e v. Same w v)
        (read_ip_rules ctx d)
        w
unfolding read_ip_rules read_ip_rules_file rules_in_force
Ends-read_ip_rules ctx d w = read_parsed _ _ _ w
