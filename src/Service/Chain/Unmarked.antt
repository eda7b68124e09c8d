-- ===== src/Service/Chain/Unmarked.antt =====
-- The errors of `runChain` of internal/service/chain.go.
use caddy_waf_ui.Prelude.{Option, none, some}
use caddy_waf_ui.Text.{Bytes}
use caddy_waf_ui.Errors.{Error, Result, ok, err}
use caddy_waf_ui.System.{Context, ReloadStatus}
use caddy_waf_ui.System.Store.{FilePath}
use caddy_waf_ui.System.Unmarked.{
  IsUnmarked, Unmarked, UnmarkedResult, unmarked_rules, Unmarked-bind, Unmarked-finally,
  Unmarked-raise,
}
use caddy_waf_ui.Logs.Trail.{log_action}
use caddy_waf_ui.Files.Writer.Unmarked.{Unmarked-atomic_write}
use caddy_waf_ui.Files.Backup.Unmarked.{Unmarked-backup}
use caddy_waf_ui.Service.Chain.{
  Reloader, ChainOpts, read_previous_state, restore_state, fail_recorded, after_restore,
  after_reload, apply_change, run_chain,
}

Unmarked-log_action :
    (event domain from to remote_ip : Bytes) (status : ReloadStatus)
    → Unmarked (log_action event domain from to remote_ip status)
unfolding log_action
Unmarked-log_action event domain from to remote_ip status = record { result = λ w. tt }

pub Unmarked-fail_recorded :
    {A : Type 0} (domain_name remote_ip event from fail_to : Bytes) (status : ReloadStatus)
    (e : Error)
    → IsUnmarked e
    → Unmarked (fail_recorded {A = A} domain_name remote_ip event from fail_to status e)
unfolding fail_recorded
Unmarked-fail_recorded domain_name remote_ip event from fail_to status e h =
    Unmarked-bind _ _ (Unmarked-log_action _ _ _ _ _ _) (λ _. Unmarked-raise e h)

Unmarked-read_previous_state : (p : FilePath) → Unmarked (read_previous_state p)
unfolding read_previous_state
Unmarked-read_previous_state p = search unmarked_rules

Unmarked-restore_state :
    (ctx : Context) (p : FilePath) (previous : Option Bytes)
    → Unmarked (restore_state ctx p previous)
unfolding restore_state
Unmarked-restore_state ctx p none = search unmarked_rules
Unmarked-restore_state ctx p (some content) = Unmarked-atomic_write ctx p content

module _ (reloader : Reloader) (ctx : Context) (domain_name remote_ip : Bytes) (opts : ChainOpts)
    (reloads : Unmarked reloader.run) (mutates : Unmarked opts.mutate) where
  Unmarked-after_restore :
      (e : Error) (r : Result (Unit {0}))
      → IsUnmarked e
      → UnmarkedResult r
      → Unmarked (after_restore reloader ctx domain_name remote_ip opts e r)
  unfolding after_restore
  Unmarked-after_restore e (ok a) h k = search (unmarked_rules, Unmarked-log_action)
  Unmarked-after_restore e (err f) h k = search (unmarked_rules, Unmarked-log_action)

  Unmarked-after_reload :
      (previous : Option Bytes) (r : Result (Unit {0}))
      → UnmarkedResult r
      → Unmarked (after_reload reloader ctx domain_name remote_ip opts previous r)
  unfolding after_reload
  Unmarked-after_reload previous (ok a) h = Unmarked-log_action _ _ _ _ _ _
  Unmarked-after_reload previous (err e) h =
      Unmarked-finally _ _ (Unmarked-restore_state ctx opts.conf_path previous)
        (λ r k. Unmarked-after_restore e r h k)

  Unmarked-apply_change :
      (previous : Option Bytes)
      → Unmarked (apply_change reloader ctx domain_name remote_ip opts previous)
  unfolding apply_change
  Unmarked-apply_change previous =
      Unmarked-bind _ _ (search (unmarked_rules, Unmarked-backup, Unmarked-fail_recorded)) (λ _.
        Unmarked-bind _ _ mutates
          (λ _. Unmarked-finally _ _ reloads (λ r h. Unmarked-after_reload previous r h)))

  -- Where the mutation and the reload have no error that the handlers look for, the chain has none.
  pub Unmarked-run_chain : Unmarked (run_chain reloader ctx domain_name remote_ip opts)
  unfolding run_chain
  Unmarked-run_chain =
      search (
        unmarked_rules, Unmarked-read_previous_state, Unmarked-fail_recorded, Unmarked-apply_change,
      )
