-- ===== src/Tests/Service.antt =====
-- The entries of the chain at concrete inputs.
use mathlib.Core.Bool.{false≢true}
use caddy_waf_ui.Prelude.{none, ◌≡◌, ◌≢◌, some, List, [], ◌∷◌}
use caddy_waf_ui.Text.{Bytes, str, beq}
use caddy_waf_ui.Text.Laws.{beq_iff}
use caddy_waf_ui.Errors.{ok}
use caddy_waf_ui.System.Store.{lookup}
use caddy_waf_ui.System.Ends.{Ends, Ends-weaken}
use caddy_waf_ui.Config.{managed_dir, backup_dir, audit_log_path, include_dir}
use caddy_waf_ui.Files.Naming.{backup_dir_path}
use caddy_waf_ui.Waf.Exclusions.{Exclusion, validate_exclusions}
use caddy_waf_ui.Service.Chain.{ChainOpts, fail_recorded, run_chain}
use caddy_waf_ui.Service.Chain.Outcome.{Mutation, Applied, Refused, Updated}
use caddy_waf_ui.Service.Chain.Run.{run_chain-Applied}
use caddy_waf_ui.Service.Updates.{
  exclusions_opts, rollback_opts, generate_and_write, update_exclusions, rollback,
}
use caddy_waf_ui.Service.Updates.Modes.{Apart, Generated, update_exclusions-Applied}
use caddy_waf_ui.Service.Updates.Written.{generate_and_write-Ends}
use caddy_waf_ui.Service.Updates.Rollbacks.{CopyOf, Names, rollback-Applied}
use caddy_waf_ui.Tests.Files.{old_snapshot_typed, waf_overlay_placed}
use caddy_waf_ui.Tests.Setting.{
  site_name, context, overlay_file, world, quiet_world, accepting, refusing,
}

pub managed_dir-Apart : Apart context site_name
unfolding managed_dir backup_dir backup_dir_path caddy_waf_ui.Config.env_or beq
managed_dir-Apart same = false≢true ((beq_iff _ _).1 same)

overlay_apart : overlay_file.dir ≢ backup_dir_path (backup_dir context.env) site_name
unfolding backup_dir backup_dir_path caddy_waf_ui.Config.env_or beq
overlay_apart same = false≢true ((beq_iff _ _).1 same)

abbrev two_exclusions : List Exclusion
two_exclusions =
    record { type = str "id"; value = str "942100"; param = [] }
    ∷ record { type = str "tag"; value = str "attack-sqli"; param = str "q" }
    ∷ []

update_exclusions-Applied_example :
    Updated site_name
      (validate_exclusions two_exclusions)
      []
      (exclusions_opts context site_name two_exclusions [])
      (Generated context site_name two_exclusions)
      (update_exclusions accepting context site_name two_exclusions [])
      world
update_exclusions-Applied_example =
    update_exclusions-Applied accepting context site_name [] managed_dir-Apart two_exclusions world

abbrev snapshot_id : Bytes
snapshot_id = str "2026-08-01T00-00-00Z.waf.conf"

snapshot_id-Names : Names context site_name snapshot_id (str "waf") overlay_file
snapshot_id-Names = record { typed = old_snapshot_typed; placed = waf_overlay_placed }

rollback-Applied_example :
    Updated site_name none []
      (rollback_opts context site_name snapshot_id (str "waf") overlay_file [])
      (CopyOf context site_name snapshot_id (str "waf") overlay_file quiet_world.disk)
      (rollback accepting context site_name snapshot_id [])
      quiet_world
rollback-Applied_example =
    rollback-Applied accepting context site_name snapshot_id [] managed_dir-Apart (str "waf")
      overlay_file snapshot_id-Names quiet_world

abbrev bare_opts : ChainOpts
bare_opts = record {
  file_type = str "waf";
  conf_path = overlay_file;
  fail_event = str "failed";
  reload_fail_event = str "reload_failed";
  success_event = str "changed";
  from = [];
  fail_to = [];
  to = str "On";
  mutate =
      generate_and_write context overlay_file (fail_recorded site_name [] (str "failed") [] [])
        (ok (str "new"));
}

bare_mutation :
    Mutation context site_name [] bare_opts (λ disk. lookup overlay_file disk ≡ some (str "new"))
bare_mutation = record {
  changes = λ w.
      Ends-weaken _ _ _ w
        (generate_and_write-Ends context site_name [] (str "failed") [] [] overlay_file
          (ok (str "new")) w)
        (λ a v h. (cc (h.1, h.2), h.3)) (λ e v h. h);
}

run_chain-Applied_example :
    Ends
      (λ a v.
        Applied site_name [] bare_opts
          (λ disk. lookup overlay_file disk ≡ some (str "new"))
          world.trail
          v)
      (λ e v. Refused site_name [] bare_opts (lookup overlay_file world.disk) world.trail e v)
      (run_chain refusing context site_name [] bare_opts)
      world
run_chain-Applied_example =
    run_chain-Applied refusing context site_name [] bare_opts
      (λ disk. lookup overlay_file disk ≡ some (str "new")) bare_mutation overlay_apart world
