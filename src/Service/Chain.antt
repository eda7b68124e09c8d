-- ===== src/Service/Chain.antt =====
-- internal/service/chain.go: the shared chain, which runs under one lock, so that a run of it is one
-- step for every other request. The reload of Caddy is an interface that internal/caddy fills.
pub mod Outcome
mod Restore
pub mod Run
pub mod Snapshots
pub mod Unmarked
use caddy_waf_ui.Prelude.{◌≡◌, Bool, true, false, Option, none, some, List, [], ◌∷◌, if◌then◌else◌}
use caddy_waf_ui.Text.{Bytes, str}
use caddy_waf_ui.Errors.{
  Error, not_exist, reading_previous, creating_backup, reloading, restoring_overlay, wrapped,
  Result, ok, err,
}
use caddy_waf_ui.System.{
  World, Context, Exec, ReloadStatus, success, read_error, backup_error, failed,
  failed_and_restore_failed, pure, raise, catch, finally, ◌>>=◌, ◌>>◌,
}
use caddy_waf_ui.System.Store.{FilePath, lookup}
use caddy_waf_ui.System.Calls.{read_file, remove}
use caddy_waf_ui.Logs.Trail.{log_action}
use caddy_waf_ui.Files.Writer.{atomic_write}
use caddy_waf_ui.Files.Backup.{is_not_exist, backup}

-- `Reload` writes no overlay and no audit event, whether it succeeds or fails.
pub record Reloader : Type 0 where
  pub run : Exec (Unit {0})
  pub keeps_disk : (w : World) → (run w).1.disk ≡ w.disk
  pub keeps_trail : (w : World) → (run w).1.trail ≡ w.trail

-- The overlay's bytes, `none` when it does not exist.
abbrev previous_or_raise : Error → Exec (Option Bytes)
previous_or_raise e = if is_not_exist e then pure none else raise e

pub read_previous_state : FilePath → Exec (Option Bytes)
read_previous_state conf_path =
    catch (do content ← read_file conf_path; pure (some content)) previous_or_raise

abbrev unless_missing : Error → Exec (Unit {0})
unless_missing e = if is_not_exist e then pure tt else raise e

pub restore_state : Context → FilePath → Option Bytes → Exec (Unit {0})
restore_state ctx conf_path none = catch (remove conf_path) unless_missing
restore_state ctx conf_path (some previous) = atomic_write ctx conf_path previous

pub record ChainOpts : Type 0 where
  pub file_type : Bytes
  pub conf_path : FilePath
  pub fail_event : Bytes
  pub reload_fail_event : Bytes
  pub success_event : Bytes
  pub from : Bytes
  pub fail_to : Bytes
  pub to : Bytes
  pub mutate : Exec (Unit {0})

-- A failure before the reload is recorded, and the error returned.
unfoldable pub fail_recorded :
    {A : Type 0} → Bytes → Bytes → Bytes → Bytes → Bytes → ReloadStatus → Error → Exec A
fail_recorded domain_name remote_ip event from fail_to status e = do
  log_action event domain_name from fail_to remote_ip status
  raise e

module _ (reloader : Reloader) (ctx : Context) (domain_name remote_ip : Bytes)
    (opts : ChainOpts) where
  abbrev fail : {A : Type 0} → ReloadStatus → Error → Exec A
  fail = fail_recorded domain_name remote_ip opts.fail_event opts.from opts.fail_to

  abbrev log_reload : Bytes → ReloadStatus → Exec (Unit {0})
  log_reload event status = log_action event domain_name opts.from opts.to remote_ip status

  -- The result of the restoration decides what is recorded and returned.
  after_restore : Error → Result (Unit {0}) → Exec (Unit {0})
  after_restore e (ok a) = do
    log_reload opts.reload_fail_event (failed e)
    raise (wrapped reloading e)
  after_restore e (err restore_err) = do
    log_reload opts.reload_fail_event (failed_and_restore_failed e restore_err)
    raise (wrapped restoring_overlay restore_err)

  after_reload : Option Bytes → Result (Unit {0}) → Exec (Unit {0})
  after_reload previous (ok a) = log_reload opts.success_event success
  after_reload previous (err e) =
      finally (restore_state ctx opts.conf_path previous) (after_restore e)

  -- What follows the reading of the previous state.
  apply_change : Option Bytes → Exec (Unit {0})
  apply_change previous = do
    catch (backup ctx domain_name opts.file_type)
        (λ e. fail (backup_error e) (wrapped creating_backup e))
    opts.mutate
    finally reloader.run (after_reload previous)

  pub run_chain : Exec (Unit {0})
  run_chain = do
    previous ←
        catch (read_previous_state opts.conf_path)
          (λ e. fail (read_error e) (wrapped reading_previous e))
    apply_change previous
