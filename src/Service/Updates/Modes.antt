-- ===== src/Service/Updates/Modes.antt =====
-- The entries that generate an overlay: `UpdateWAFMode` and `UpdateExclusions`.
use caddy_waf_ui.Prelude.{◌≡◌, ◌≢◌, Option, none, some, if◌then◌else◌, List, []}
use caddy_waf_ui.Text.{Bytes}
use caddy_waf_ui.Errors.{Error, ok, invalid_mode}
use caddy_waf_ui.System.{World, Context}
use caddy_waf_ui.System.Store.{Disk, lookup}
use caddy_waf_ui.System.Ends.{Ends-weaken}
use caddy_waf_ui.Config.{managed_dir, backup_dir}
use caddy_waf_ui.Domain.Model.{WafMode}
use caddy_waf_ui.Files.Naming.{backup_dir_path, waf_config_path, exclusions_config_path}
use caddy_waf_ui.Waf.Exclusions.{Exclusion, validate_exclusions, generate_exclusions}
use caddy_waf_ui.Service.Chain.{Reloader}
use caddy_waf_ui.Service.Chain.Outcome.{Mutation, Updated}
use caddy_waf_ui.Service.Chain.Run.{run_chain-Applied}
use caddy_waf_ui.Service.Updates.{
  is_mode, new_site, mode_snippet, mode_opts, exclusions_opts, update_waf_mode, update_exclusions,
}
use caddy_waf_ui.Service.Updates.Entries.{checked-Updated, mode-Updated}
use caddy_waf_ui.Service.Updates.Written.{generate_and_write-Ends}

-- The managed overlays do not lie among the snapshots of the domain.
abbrev pub Apart : Context → Bytes → Type 0
Apart ctx domain_name = managed_dir ctx.env ≢ backup_dir_path (backup_dir ctx.env) domain_name

-- The overlay holds the snippet of the mode.
abbrev pub ModeWritten : Context → Bytes → WafMode → Disk → Type 0
ModeWritten ctx domain_name mode disk =
    lookup (waf_config_path (managed_dir ctx.env) domain_name) disk
    ≡ some (mode_snippet ctx domain_name mode)

-- The error for a mode that is none.
abbrev pub mode_fault : WafMode → Option Error
mode_fault mode = if is_mode mode then none else some invalid_mode

-- The overlay holds what the generator gave.
pub record Generated (ctx : Context) (domain_name : Bytes) (exclusions : List Exclusion)
    (disk : Disk) : Type 0 where
  pub snippet : Bytes
  pub generated : generate_exclusions (new_site domain_name []) exclusions ctx.now ≡ ok snippet
  pub written :
      lookup (exclusions_config_path (managed_dir ctx.env) domain_name) disk ≡ some snippet

module _ (reloader : Reloader) (ctx : Context) (domain_name remote_ip : Bytes)
    (apart : Apart ctx domain_name) where
  module _ (mode : WafMode) where
    pub mode_mutation :
        Mutation ctx domain_name remote_ip
          (mode_opts ctx domain_name mode remote_ip)
          (ModeWritten ctx domain_name mode)
    mode_mutation = record {
      changes = λ w.
          Ends-weaken _ _ _ w
            (generate_and_write-Ends ctx domain_name remote_ip _ _ _ _
              (ok (mode_snippet ctx domain_name mode)) w)
            (λ a v h. (cc (h.1, h.2), h.3)) (λ e v h. h);
    }

    -- `UpdateWAFMode` ends in one of three ways. It succeeds: domain and mode are valid, the overlay is
    -- the generated snippet, and the success event is the one new event. It rejects the domain or the
    -- mode, with the error that says so: nothing at all has changed. Or, with a valid domain and mode,
    -- the chain fails: the overlay is as before, unless the error that it returns says that its
    -- restoration failed, and one failure event is the one new event.
    pub update_waf_mode-Applied :
        (w : World)
        → Updated domain_name
            (mode_fault mode)
            remote_ip
            (mode_opts ctx domain_name mode remote_ip)
            (ModeWritten ctx domain_name mode)
            (update_waf_mode reloader ctx domain_name mode remote_ip)
            w
    unfolding update_waf_mode waf_config_path
    update_waf_mode-Applied w =
        mode-Updated domain_name remote_ip _ _ _ w (is_mode mode)
          (run_chain-Applied reloader ctx domain_name remote_ip _ _ mode_mutation apart w)

  module _ (exclusions : List Exclusion) where
    pub exclusions_mutation :
        Mutation ctx domain_name remote_ip
          (exclusions_opts ctx domain_name exclusions remote_ip)
          (Generated ctx domain_name exclusions)
    exclusions_mutation = record {
      changes = λ w.
          Ends-weaken _ _ _ w
            (generate_and_write-Ends ctx domain_name remote_ip _ _ _ _
              (generate_exclusions (new_site domain_name []) exclusions ctx.now) w)
            (λ a v h. (record { snippet = h.0; generated = h.1; written = h.2 }, h.3)) (λ e v h. h);
    }

    -- `UpdateExclusions`, where the overlays do not lie among the snapshots of the domain, ends in one
    -- of three ways. It succeeds: domain and list are valid, the overlay is what `GenerateExclusions`
    -- gives for the whole list, and the success event is the one new event. It rejects the domain or
    -- the list, with the error of its validation: nothing has changed. Or, with a valid domain and
    -- list, the chain fails: the overlay is as before, unless the error that it returns says that its
    -- restoration failed, and one failure event is the one new event.
    pub update_exclusions-Applied :
        (w : World)
        → Updated domain_name
            (validate_exclusions exclusions)
            remote_ip
            (exclusions_opts ctx domain_name exclusions remote_ip)
            (Generated ctx domain_name exclusions)
            (update_exclusions reloader ctx domain_name exclusions remote_ip)
            w
    unfolding update_exclusions exclusions_config_path
    update_exclusions-Applied w =
        checked-Updated domain_name remote_ip _ _ _ w (validate_exclusions exclusions)
          (run_chain-Applied reloader ctx domain_name remote_ip _ _ exclusions_mutation apart w)
