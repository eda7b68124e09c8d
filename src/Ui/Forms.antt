-- ===== src/Ui/Forms.antt =====
-- internal/ui/forms.go: the forms, each answered with a redirection that carries a flash.
pub mod Adding
use caddy_waf_ui.Prelude.{ℕ, Bool, Option, none, some, List, [], ◌∷◌, ◌++◌, if◌then◌else◌}
use caddy_waf_ui.Text.{Bytes, str, beq}
use caddy_waf_ui.Errors.{Result, ok, err}
use caddy_waf_ui.System.{World, Context, Exec, ◌>>=◌}
use caddy_waf_ui.Config.{Env}
use caddy_waf_ui.Waf.Exclusions.{Exclusion, exclude_by_id}
use caddy_waf_ui.IpRules.{IpRules, Net}
use caddy_waf_ui.Service.Chain.{Reloader}
use caddy_waf_ui.Service.Updates.{update_waf_mode, update_exclusions, rollback}
use caddy_waf_ui.Service.IpUpdates.{update_ip_rules}
use caddy_waf_ui.Web.Http.{Request, Answer}
use caddy_waf_ui.Web.Auth.{login, logout}
use caddy_waf_ui.Web.Reply.{redirect, set_cookie, cookie_text}
use caddy_waf_ui.Web.Url.{Values, encode}
use caddy_waf_ui.Ui.Overlay.{read_exclusions, read_ip_rules}

-- The values of the keys that are not empty.
unfoldable pub present : (Bytes → Bytes) → List Bytes → Values
unfolding beq
present value [] = []
present value (key ∷ keys) =
    let rest = present value keys in if beq (value key) [] then rest else (key, value key) ∷ rest

abbrev kept_keys : List Bytes
kept_keys = str "tab" ∷ (str "domain" ∷ (str "search" ∷ (str "actionFilter" ∷ [])))

unfoldable pub redirect_after_form : Request → Bytes → Answer
unfolding present encode
redirect_after_form r flash =
    redirect (str "/?" ++ encode (present r.form kept_keys ++ ((str "flash", flash) ∷ []))) 303

abbrev pub success_flash : Bytes
success_flash = str "success"

abbrev pub error_flash : Bytes
error_flash = str "error"

abbrev pub form_answer : {A : Type 0} → Request → Result A → Answer
form_answer r (ok a) = redirect_after_form r success_flash
form_answer r (err e) = redirect_after_form r error_flash

abbrev pub form_step : {A : Type 0} → Request → Exec A → World → Answer × World
form_step r m w = let (result, v) = m w in (form_answer r result, v)

-- The warning in the log of a failed login is left out.
unfoldable pub handle_login : Env → Request → Answer
unfolding login cookie_text
handle_login env r = elim (login env (r.form (str "token"))) [
  | some cookie ↦ set_cookie cookie (redirect (str "/") 303)
  | none ↦ redirect (str "/login?flash=invalid_login") 303
]

unfoldable pub handle_logout : Answer
unfolding cookie_text
handle_logout = set_cookie logout (redirect (str "/login?flash=logged_out") 303)

abbrev pub form_exclusion : Request → Exclusion
form_exclusion r = record {
  type = exclude_by_id;
  value = r.form (str "ruleId");
  param = r.form (str "param");
}

-- The switch on the action.
unfoldable pub with_entry : Bytes → Bytes → IpRules → Option IpRules
unfolding beq
with_entry action cidr current =
    if beq action (str "DENY")
    then some (record current { denylist = current.denylist ++ (cidr ∷ []) })
    else if beq action (str "ALLOW")
    then some (record current { allowlist = current.allowlist ++ (cidr ∷ []) })
    else none

module _ (reloader : Reloader) (net : Net) (ctx : Context) where
  unfoldable pub handle_form_set_mode : Bytes → Request → World → Answer × World
  unfolding redirect_after_form
  handle_form_set_mode domain_name r =
      form_step r (update_waf_mode reloader ctx domain_name (r.form (str "mode")) r.remote_addr)

  -- The error of the reading and that of the service are answered alike.
  unfoldable pub add_exclusion : Bytes → Request → Exec (Unit {0})
  unfolding ◌>>=◌ read_exclusions
  add_exclusion domain_name r = do
    current ← read_exclusions ctx domain_name
    update_exclusions reloader ctx domain_name (current ++ (form_exclusion r ∷ [])) r.remote_addr

  unfoldable pub handle_form_add_exclusion : Bytes → Request → World → Answer × World
  unfolding redirect_after_form add_exclusion
  handle_form_add_exclusion domain_name r = form_step r (add_exclusion domain_name r)

  unfoldable pub after_reading : Bytes → Request → Result IpRules → World → Answer × World
  unfolding redirect_after_form with_entry
  after_reading domain_name r (err e) = λ w. (redirect_after_form r error_flash, w)
  after_reading domain_name r (ok current) =
      elim (with_entry (r.form (str "action")) (r.form (str "cidr")) current) [
        | none ↦ λ w. (redirect_after_form r error_flash, w)
        | some rules ↦
            form_step r (update_ip_rules reloader net ctx domain_name rules r.remote_addr)
      ]

  unfoldable pub handle_form_add_ip_rule : Bytes → Request → World → Answer × World
  unfolding after_reading read_ip_rules
  handle_form_add_ip_rule domain_name r w =
      let (current, v) = read_ip_rules ctx domain_name w in after_reading domain_name r current v

  unfoldable pub handle_form_rollback : Bytes → Request → World → Answer × World
  unfolding redirect_after_form
  handle_form_rollback domain_name r =
      form_step r (rollback reloader ctx domain_name (r.form (str "snapId")) r.remote_addr)
