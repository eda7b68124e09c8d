-- ===== src/Service/Chain/Run.antt =====
-- A run of the chain: what it leaves behind, on every path.
use caddy_waf_ui.Prelude.{◌≡◌, ◌≢◌, inl, inr, ap, ◌∙◌, Option, List}
use caddy_waf_ui.Text.{Bytes}
use caddy_waf_ui.Errors.{Error, ok, err}
use caddy_waf_ui.System.{
  World, Context, Action, ReloadStatus, success, failed, failed_and_restore_failed, raise, ◌>>=◌,
}
use caddy_waf_ui.System.Store.{Disk, lookup}
use caddy_waf_ui.System.Ends.{
  Ends, Ends-bind, Ends-catch, Ends-finally, Ends-weaken, Steady, Ends-Steady, Ends-logged,
  Holds-both,
}
use caddy_waf_ui.Config.{backup_dir}
use caddy_waf_ui.Logs.Trail.{log_action}
use caddy_waf_ui.Files.Naming.{backup_dir_path}
use caddy_waf_ui.Files.Backup.{backup}
use caddy_waf_ui.Files.Backup.Quiets.{Quiet-backup}
use caddy_waf_ui.Service.Chain.{
  Reloader, ChainOpts, fail_recorded, after_restore, after_reload, apply_change, run_chain,
}
use caddy_waf_ui.Service.Chain.Outcome.{Mutation, Applied, Refused}
use caddy_waf_ui.Service.Chain.Restore.{
  read_previous_state-eq, restore_state-eq, Quiet-restore_state,
}

module _ (reloader : Reloader) (ctx : Context) (domain_name remote_ip : Bytes) (opts : ChainOpts)
    (Good : Disk → Type 0) (mutation : Mutation ctx domain_name remote_ip opts Good)
    (apart : opts.conf_path.dir ≢ backup_dir_path (backup_dir ctx.env) domain_name) where
  module _ (old : Option Bytes) (trail : List Action) where
    abbrev Start : World → Type 0
    Start v = Steady opts.conf_path old trail v

    abbrev Done : Unit {0} → World → Type 0
    Done a v = Applied domain_name remote_ip opts Good trail v

    abbrev Undone : Error → World → Type 0
    Undone e v = Refused domain_name remote_ip opts old trail e v

    Ends-fail :
        {A : Type 0} (P : A → World → Type 0) (status : ReloadStatus) (e : Error) (v : World)
        → Start v
        → Ends P Undone
            (fail_recorded domain_name remote_ip opts.fail_event opts.from opts.fail_to status e)
            v
    unfolding fail_recorded log_action raise ◌>>=◌
    Ends-fail P status e v h = record {
      at = record {
        kept = inr h.file;
        recorded = inl (record { status = status; appended = rw h.logged });
      };
    }

    Ends-after_restore_ok :
        (e : Error) (v : World)
        → Start v
        → Ends Done Undone (after_restore reloader ctx domain_name remote_ip opts e (ok tt)) v
    unfolding after_restore log_action raise ◌>>=◌
    Ends-after_restore_ok e v h = record {
      at = record {
        kept = inr h.file;
        recorded = inr (record { status = failed e; appended = rw h.logged });
      };
    }

    Ends-after_restore_err :
        (e restore_err : Error) (v : World)
        → v.trail ≡ trail
        → Ends Done Undone
            (after_restore reloader ctx domain_name remote_ip opts e (err restore_err))
            v
    unfolding after_restore log_action raise ◌>>=◌
    Ends-after_restore_err e restore_err v h = record {
      at = record {
        kept = inl tt;
        recorded =
            inr (record { status = failed_and_restore_failed e restore_err; appended = rw h });
      };
    }

    -- Behind the reload: the new overlay stays when it worked, else the old one comes back.
    Ends-after_reload_ok :
        (v : World)
        → Good v.disk
        → v.trail ≡ trail
        → Ends Done Undone (after_reload reloader ctx domain_name remote_ip opts old (ok tt)) v
    unfolding after_reload log_action
    Ends-after_reload_ok v good h = record {
      at = record { good = good; recorded = record { status = success; appended = rw h } };
    }

    Ends-after_reload_err :
        (e : Error) (v : World)
        → v.trail ≡ trail
        → Ends Done Undone (after_reload reloader ctx domain_name remote_ip opts old (err e)) v
    unfolding after_reload
    Ends-after_reload_err e v h =
        Ends-finally _ _ _ _ v
          (Ends-logged _ v (Quiet-restore_state ctx opts.conf_path old)
            (restore_state-eq ctx opts.conf_path old v))
          (λ a u k. Ends-after_restore_ok e u (record { file = k.0; logged = k.1 ∙ h }))
          (λ f u k. Ends-after_restore_err e f u (k.1 ∙ h))

    Ends-reload :
        (v : World)
        → Good v.disk
        → v.trail ≡ trail
        → Ends
            (λ a u. Good u.disk × (u.trail ≡ trail))
            (λ e u. Good u.disk × (u.trail ≡ trail))
            reloader.run
            v
    Ends-reload v good h = record {
      at =
          Holds-both (λ u. Good u.disk × (u.trail ≡ trail)) (reloader.run v).0 (reloader.run v).1
            (rw (reloader.keeps_disk v) good, reloader.keeps_trail v ∙ h);
    }

    Ends-mutate :
        (v : World) → Start v → Ends (λ a u. Good u.disk × (u.trail ≡ trail)) Undone opts.mutate v
    Ends-mutate v h =
        Ends-weaken _ _ _ v (mutation.changes v) (λ a u k. (k.0, k.1 ∙ h.logged))
          (λ e u k. record {
            kept = inr (k.0 ∙ h.file);
            recorded = inl (record { status = k.1.status; appended = k.1.appended ∙ rw h.logged });
          })

    Ends-backup :
        (v : World)
        → Start v
        → Ends (λ a u. Start u) (λ e u. Start u) (backup ctx domain_name opts.file_type) v
    Ends-backup v h =
        Ends-Steady opts.conf_path old trail _ v (Quiet-backup ctx domain_name opts.file_type)
          (record { other_dir = apart }) h

    Ends-apply_change :
        (v : World)
        → Start v
        → Ends Done Undone (apply_change reloader ctx domain_name remote_ip opts old) v
    unfolding apply_change
    Ends-apply_change v h =
        Ends-bind (λ a u. Start u) _ _ v
          (Ends-catch (λ e u. Start u) _ _ v (Ends-backup v h) (λ e u k. Ends-fail _ _ _ u k))
          (λ a u k. Ends-bind _ _ _ u (Ends-mutate u k) (λ b x m.
            Ends-finally _ _ _ _ x (Ends-reload x m.0 m.1) (λ c y r. Ends-after_reload_ok y r.0 r.1)
              (λ e y r. Ends-after_reload_err e y r.1)))

  -- A run of the chain ends in one of two ways. It succeeds: the overlay is as the mutation made it
  -- and the success event is the one new event of the trail. Or it returns an error: the overlay is
  -- as it was before the run, unless the error says that its restoration failed, and one failure
  -- event is the one new event. The overlay does not lie among the domain's snapshots.
  pub run_chain-Applied :
      (w : World)
      → Ends
          (λ a v. Applied domain_name remote_ip opts Good w.trail v)
          (λ e v. Refused domain_name remote_ip opts (lookup opts.conf_path w.disk) w.trail e v)
          (run_chain reloader ctx domain_name remote_ip opts)
          w
  unfolding run_chain
  run_chain-Applied w =
      Ends-bind
        (λ previous v.
          (previous ≡ lookup opts.conf_path w.disk)
          × Steady opts.conf_path (lookup opts.conf_path w.disk) w.trail v)
        _ _ w
        (Ends-catch (λ e v. Steady opts.conf_path (lookup opts.conf_path w.disk) w.trail v) _ _ w
          (Ends-weaken _ _ _ w (read_previous_state-eq opts.conf_path w)
            (λ previous v h. (h.0, record { file = ap (lookup opts.conf_path) h.1; logged = h.2 }))
            (λ e v h. record { file = ap (lookup opts.conf_path) h.0; logged = h.1 }))
          (λ e v h. Ends-fail _ _ _ _ _ v h))
        (λ previous v h. rw h.0 (Ends-apply_change _ _ v h.1))
