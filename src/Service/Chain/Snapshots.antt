-- ===== src/Service/Chain/Snapshots.antt =====
-- A run of the chain changes no snapshot but the one that its backup takes.
use caddy_waf_ui.Prelude.{◌≢◌, refl, ap, Option}
use caddy_waf_ui.Text.{Bytes}
use caddy_waf_ui.Errors.{Error, Result, ok, err}
use caddy_waf_ui.System.{Context, ReloadStatus, raise, ◌>>=◌}
use caddy_waf_ui.System.Store.{FilePath, lookup}
use caddy_waf_ui.System.Frame.{Quiet, quiet_rules}
use caddy_waf_ui.System.Stable.{
  Stable, Stable-same, Stable-Quiet, Stable-bind, Stable-finally, Stable-catch,
}
use caddy_waf_ui.Logs.Trail.{log_action}
use caddy_waf_ui.Files.Writer.Atomic.{Elsewhere}
use caddy_waf_ui.Files.Backup.{snapshot_path}
use caddy_waf_ui.Files.Backup.Others.{Stable-backup}
use caddy_waf_ui.Service.Chain.{
  Reloader, ChainOpts, fail_recorded, read_previous_state, after_restore, after_reload,
  apply_change, run_chain,
}
use caddy_waf_ui.Service.Chain.Restore.{Quiet-restore_state}

module _ (q : FilePath) (content : Option Bytes) where
  pub Stable-fail_recorded :
      {A : Type 0} (domain_name remote_ip event from fail_to : Bytes) (status : ReloadStatus)
      (e : Error)
      → Stable q content (fail_recorded {A = A} domain_name remote_ip event from fail_to status e)
  unfolding fail_recorded log_action raise ◌>>=◌
  Stable-fail_recorded domain_name remote_ip event from fail_to status e =
      Stable-same q content _ (λ w. refl)

  Quiet-read_previous_state : (p : FilePath) → Quiet (λ r. Unit {0}) (read_previous_state p)
  unfolding read_previous_state
  Quiet-read_previous_state p = search quiet_rules

  module _ (reloader : Reloader) (ctx : Context) (domain_name remote_ip : Bytes) (opts : ChainOpts)
      (elsewhere : Elsewhere ctx opts.conf_path q)
      (other : snapshot_path ctx domain_name opts.file_type ≢ q)
      (mutates : Stable q content opts.mutate) where
    Stable-after_restore :
        (e : Error) (r : Result (Unit {0}))
        → Stable q content (after_restore reloader ctx domain_name remote_ip opts e r)
    unfolding after_restore log_action raise ◌>>=◌
    Stable-after_restore e (ok a) = Stable-same q content _ (λ w. refl)
    Stable-after_restore e (err f) = Stable-same q content _ (λ w. refl)

    Stable-after_reload :
        (previous : Option Bytes) (r : Result (Unit {0}))
        → Stable q content (after_reload reloader ctx domain_name remote_ip opts previous r)
    unfolding after_reload log_action
    Stable-after_reload previous (ok a) = Stable-same q content _ (λ w. refl)
    Stable-after_reload previous (err e) =
        Stable-finally q content _ _
          (Stable-Quiet q content _ (Quiet-restore_state ctx opts.conf_path previous) elsewhere)
          (Stable-after_restore e)

    Stable-apply_change :
        (previous : Option Bytes)
        → Stable q content (apply_change reloader ctx domain_name remote_ip opts previous)
    unfolding apply_change
    Stable-apply_change previous =
        Stable-bind q content _ _
          (Stable-catch q content _ _ (Stable-backup q content ctx domain_name opts.file_type other)
            (λ e. Stable-fail_recorded _ _ _ _ _ _ _))
          (λ a. Stable-bind q content _ _ mutates (λ b.
            Stable-finally q content _ _
              (Stable-same q content _ (λ w. ap (lookup q) (reloader.keeps_disk w)))
              (Stable-after_reload previous)))

    pub Stable-run_chain : Stable q content (run_chain reloader ctx domain_name remote_ip opts)
    unfolding run_chain
    Stable-run_chain =
        Stable-bind q content _ _
          (Stable-catch q content _ _
            (Stable-Quiet q content _ (Quiet-read_previous_state opts.conf_path) tt)
            (λ e. Stable-fail_recorded _ _ _ _ _ _ _))
          Stable-apply_change
