-- ===== src/Tests/Files.antt =====
-- Writes, backups, retention and restoration at concrete inputs.
use caddy_waf_ui.Prelude.{◌≡◌, ◌≤◌, refl, some, length}
use caddy_waf_ui.Text.{str}
use caddy_waf_ui.Errors.{ok}
use caddy_waf_ui.System.Store.{lookup}
use caddy_waf_ui.System.Ends.{Ends}
use caddy_waf_ui.Config.{managed_dir, backup_dir}
use caddy_waf_ui.Files.Naming.{backup_type, overlay_path, match_backup_name}
use caddy_waf_ui.Files.Writer.{atomic_write}
use caddy_waf_ui.Files.Writer.Atomic.{atomic_write-lookup}
use caddy_waf_ui.Files.Backup.{enforce_retention, restore_backup}
use caddy_waf_ui.Files.Backup.Retention.{kept_snapshots, enforce_retention-le}
use caddy_waf_ui.Files.Backup.Restore.{Restored, restore_backup-Restored}
use caddy_waf_ui.Tests.Setting.{site_name, context, overlay_file, world}

atomic_write-lookup_example :
    Ends
      (λ a v. lookup overlay_file v.disk ≡ some (str "new"))
      (λ e v. lookup overlay_file v.disk ≡ lookup overlay_file world.disk)
      (atomic_write context overlay_file (str "new"))
      world
atomic_write-lookup_example = atomic_write-lookup context overlay_file (str "new") world

snapshot_name_matches :
    match_backup_name (str "2026-08-07T15-52-13Z.ip-rules.conf")
    ≡ some (str "2026-08-07T15-52-13Z", str "ip-rules")
unfolding match_backup_name
snapshot_name_matches = refl

enforce_retention-le_example :
    Ends
      (λ a v. length (kept_snapshots (str "/backups/api_example_com") (str "waf") v.disk) ≤ 0)
      (λ e v. Unit)
      (enforce_retention (str "/backups/api_example_com") (str "waf") 0)
      world
enforce_retention-le_example =
    enforce_retention-le (str "/backups/api_example_com") (str "waf") 0 world

pub old_snapshot_typed : backup_type (str "2026-08-01T00-00-00Z.waf.conf") ≡ ok (str "waf")
unfolding backup_type
old_snapshot_typed = refl

pub waf_overlay_placed :
    overlay_path (managed_dir context.env) (str "waf") site_name ≡ ok overlay_file
unfolding overlay_path managed_dir caddy_waf_ui.Config.env_or caddy_waf_ui.Domain.Slug.domain_slug
waf_overlay_placed = refl

restore_backup-Restored_example :
    Ends
      (λ a v. Restored context site_name (str "2026-08-01T00-00-00Z.waf.conf") overlay_file world v)
      (λ e v.
        (lookup overlay_file v.disk ≡ lookup overlay_file world.disk) × (v.trail ≡ world.trail))
      (restore_backup context site_name (str "2026-08-01T00-00-00Z.waf.conf"))
      world
restore_backup-Restored_example =
    restore_backup-Restored context site_name (str "2026-08-01T00-00-00Z.waf.conf") (str "waf")
      overlay_file world old_snapshot_typed waf_overlay_placed
