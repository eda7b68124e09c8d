-- ===== src/Service/Updates.antt =====
-- internal/service/chain.go: the public entries, each with its validation, events and mutation.
pub mod Written
pub mod Entries
pub mod Modes
pub mod Unmarked
pub mod Rollbacks
pub mod Register
use caddy_waf_ui.Prelude.{
  ℕ, ◌≡◌, Bool, true, false, not, ◌&&◌, ◌||◌, Option, none, some, List, [], ◌∷◌, ◌++◌, length,
  if◌then◌else◌,
}
use caddy_waf_ui.Text.{Bytes, str, beq}
use caddy_waf_ui.Errors.{
  Error, DomainFault, invalid_domain, invalid_mode, generating, writing, restoring_snapshot,
  wrapped, Result, ok, err,
}
use caddy_waf_ui.System.{
  World, Context, Exec, ReloadStatus, generate_error, write_error, restore_error, refused, pure,
  raise, lift, catch, finally, ◌>>=◌, ◌>>◌,
}
use caddy_waf_ui.System.Store.{FilePath}
use caddy_waf_ui.Logs.Trail.{log_action}
use caddy_waf_ui.Config.{managed_dir, audit_log_path, include_dir}
use caddy_waf_ui.Domain.Model.{WafMode, mode_on, mode_off, mode_detection_only, Site}
use caddy_waf_ui.Files.Naming.{
  file_type_waf, file_type_exclusions, file_type_ip_rules, waf_config_path, exclusions_config_path,
  overlay_path, backup_type,
}
use caddy_waf_ui.Files.Writer.{atomic_write}
use caddy_waf_ui.Files.Backup.{restore_backup}
use caddy_waf_ui.Waf.Mode.{generate_snippet}
use caddy_waf_ui.Waf.Exclusions.{Exclusion, validate_exclusions, generate_exclusions, decimal_text}
use caddy_waf_ui.Service.Validate.{validate_domain}
use caddy_waf_ui.Service.Chain.{Reloader, ChainOpts, fail_recorded, run_chain}

abbrev pub domain_result : Option DomainFault → Result (Unit {0})
domain_result none = ok tt
domain_result (some fault) = err (invalid_domain fault)

abbrev pub checked : Option Error → Result (Unit {0})
checked none = ok tt
checked (some e) = err e

-- Generate, then write; each failure is recorded under the entry's event and wrapped.
pub generate_and_write :
    Context → FilePath → (ReloadStatus → Error → Exec (Unit {0})) → Result Bytes → Exec (Unit {0})
generate_and_write ctx conf_path fail (err e) = fail (generate_error e) (wrapped generating e)
generate_and_write ctx conf_path fail (ok snippet) =
    catch (atomic_write ctx conf_path snippet) (λ e. fail (write_error e) (wrapped writing e))

abbrev pub is_mode : WafMode → Bool
is_mode mode = beq mode mode_on || (beq mode mode_off || beq mode mode_detection_only)

-- A site as the entries make it: the time and the degraded flag stay at their zero values.
abbrev pub new_site : Bytes → WafMode → Site
new_site domain_name mode = record {
  domain = domain_name;
  mode = mode;
  updated = [];
  degraded = false;
}

-- What `UpdateWAFMode` writes.
abbrev pub mode_snippet : Context → Bytes → WafMode → Bytes
mode_snippet ctx domain_name mode =
    generate_snippet (new_site domain_name mode) (audit_log_path ctx.env) (include_dir ctx.env)
      ctx.now

abbrev pub mode_opts : Context → Bytes → WafMode → Bytes → ChainOpts
mode_opts ctx domain_name mode remote_ip =
    let conf_path = waf_config_path (managed_dir ctx.env) domain_name in
    record {
      file_type = file_type_waf;
      conf_path = conf_path;
      fail_event = str "waf_mode_failed";
      reload_fail_event = str "waf_mode_changed_but_reload_failed";
      success_event = str "waf_mode_changed";
      from = str "unknown";
      fail_to = mode;
      to = mode;
      mutate =
          generate_and_write ctx conf_path
            (fail_recorded domain_name remote_ip (str "waf_mode_failed") (str "unknown") mode)
            (ok (mode_snippet ctx domain_name mode));
    }

abbrev count_text : ℕ → Bytes
count_text n = decimal_text n ++ str " rules"

abbrev pub exclusions_opts : Context → Bytes → List Exclusion → Bytes → ChainOpts
exclusions_opts ctx domain_name exclusions remote_ip =
    let conf_path = exclusions_config_path (managed_dir ctx.env) domain_name in
    record {
      file_type = file_type_exclusions;
      conf_path = conf_path;
      fail_event = str "exclusions_failed";
      reload_fail_event = str "exclusions_changed_but_reload_failed";
      success_event = str "exclusions_updated";
      from = [];
      fail_to = [];
      to = count_text (length exclusions);
      mutate =
          generate_and_write ctx conf_path
            (fail_recorded domain_name remote_ip (str "exclusions_failed") [] [])
            (generate_exclusions (new_site domain_name []) exclusions ctx.now);
    }

abbrev pub rollback_opts : Context → Bytes → Bytes → Bytes → FilePath → Bytes → ChainOpts
rollback_opts ctx domain_name backup_id file_type conf_path remote_ip = record {
  file_type = file_type;
  conf_path = conf_path;
  fail_event = str "rollback_failed";
  reload_fail_event = str "rollback_changed_but_reload_failed";
  success_event = str "rollback_restored";
  from = backup_id;
  fail_to = [];
  to = file_type;
  mutate = catch (restore_backup ctx domain_name backup_id) (λ e.
      fail_recorded domain_name remote_ip (str "rollback_failed") backup_id [] (restore_error e)
        (wrapped restoring_snapshot e));
}

module _ (reloader : Reloader) (ctx : Context) where
  unfoldable pub update_waf_mode : Bytes → WafMode → Bytes → Exec (Unit {0})
  update_waf_mode domain_name mode remote_ip = do
    lift (domain_result (validate_domain domain_name))
    if not (is_mode mode)
        then raise invalid_mode
        else run_chain reloader ctx domain_name remote_ip (mode_opts ctx domain_name mode remote_ip)

  unfoldable pub update_exclusions : Bytes → List Exclusion → Bytes → Exec (Unit {0})
  update_exclusions domain_name exclusions remote_ip = do
    lift (domain_result (validate_domain domain_name))
    lift (checked (validate_exclusions exclusions))
    run_chain reloader ctx domain_name remote_ip
        (exclusions_opts ctx domain_name exclusions remote_ip)

  -- A refused snapshot name is recorded before it is returned.
  abbrev refuse : {A : Type 0} → Bytes → Bytes → Bytes → Error → Exec A
  refuse domain_name backup_id remote_ip e =
      fail_recorded domain_name remote_ip (str "rollback_failed") backup_id [] (refused e) e

  unfoldable pub rollback : Bytes → Bytes → Bytes → Exec (Unit {0})
  rollback domain_name backup_id remote_ip = do
    lift (domain_result (validate_domain domain_name))
    file_type ← catch (lift (backup_type backup_id)) (refuse domain_name backup_id remote_ip)
    conf_path ←
        catch (lift (overlay_path (managed_dir ctx.env) file_type domain_name))
          (refuse domain_name backup_id remote_ip)
    run_chain reloader ctx domain_name remote_ip
        (rollback_opts ctx domain_name backup_id file_type conf_path remote_ip)
