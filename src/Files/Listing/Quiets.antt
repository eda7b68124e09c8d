-- ===== src/Files/Listing/Quiets.antt =====
-- `ListBackups` of internal/files/backup.go only reads.
use caddy_waf_ui.Prelude.{Option, none, some, List, [], ◌∷◌}
use caddy_waf_ui.Text.{Bytes}
use caddy_waf_ui.System.{Context}
use caddy_waf_ui.System.Store.{FilePath}
use caddy_waf_ui.System.Frame.{Quiet, quiet_rules, Quiet-bind, Quiet-pure}
use caddy_waf_ui.Files.Listing.{entry_info, backup_infos, list_backups}

module _ {Kept : FilePath → Type 0} where
  Quiet-entry_info :
      (dir name : Bytes) (groups : Option (Bytes × Bytes)) → Quiet Kept (entry_info dir name groups)
  unfolding entry_info
  Quiet-entry_info dir name none = search quiet_rules
  Quiet-entry_info dir name (some groups) = search quiet_rules

  Quiet-backup_infos : (dir : Bytes) (names : List Bytes) → Quiet Kept (backup_infos dir names)
  unfolding backup_infos
  Quiet-backup_infos dir [] = search quiet_rules
  Quiet-backup_infos dir (name ∷ names) =
      Quiet-bind _ _ (Quiet-entry_info dir name _)
        (λ info. Quiet-bind _ _ (Quiet-backup_infos dir names) (λ rest. Quiet-pure _))

  pub Quiet-list_backups :
      (ctx : Context) (domain_name : Bytes) → Quiet Kept (list_backups ctx domain_name)
  unfolding list_backups
  Quiet-list_backups ctx domain_name = search (quiet_rules, Quiet-backup_infos)
