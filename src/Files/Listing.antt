-- ===== src/Files/Listing.antt =====
-- `ListBackups` of internal/files/backup.go.
pub mod Quiets
use caddy_waf_ui.Prelude.{ℕ, Bool, Option, none, some, List, [], ◌∷◌, ◌++◌, if◌then◌else◌, sort_by}
use caddy_waf_ui.Text.{Bytes}
use caddy_waf_ui.Errors.{Error}
use caddy_waf_ui.System.{Context, Exec, pure, raise, catch, ◌>>=◌}
use caddy_waf_ui.System.Calls.{read_dir, file_size, text_lt}
use caddy_waf_ui.Config.{backup_dir}
use caddy_waf_ui.Files.Naming.{backup_dir_path, match_backup_name}
use caddy_waf_ui.Files.Backup.{BackupInfo, is_not_exist}

abbrev pub info_of : Bytes × Bytes → ℕ → BackupInfo
info_of (stamp, file_type) size = record { timestamp = stamp; file_type = file_type; size = size }

abbrev with_info : Option BackupInfo → List BackupInfo → List BackupInfo
with_info none infos = infos
with_info (some info) infos = info ∷ infos

-- A name that is not canonical is skipped, and so is a file whose Info fails.
pub entry_info : Bytes → Bytes → Option (Bytes × Bytes) → Exec (Option BackupInfo)
entry_info dir name none = pure none
entry_info dir name (some groups) =
    catch
      (do size ← file_size (record { dir = dir; name = name }); pure (some (info_of groups size)))
      (λ e. pure none)

pub backup_infos : Bytes → List Bytes → Exec (List BackupInfo)
unfolding entry_info
backup_infos dir [] = pure []
backup_infos dir (name ∷ names) = do
  info ← entry_info dir name (match_backup_name name)
  rest ← backup_infos dir names
  pure (with_info info rest)

-- The newest first.
abbrev pub newer : BackupInfo → BackupInfo → Bool
newer a b = text_lt (b.timestamp ++ b.file_type) (a.timestamp ++ a.file_type)

abbrev no_directory : Error → Exec (List Bytes)
no_directory e = if is_not_exist e then pure [] else raise e

pub list_backups : Context → Bytes → Exec (List BackupInfo)
unfolding backup_infos
list_backups ctx domain_name = do
  let dir = backup_dir_path (backup_dir ctx.env) domain_name
  names ← catch (read_dir dir) no_directory
  infos ← backup_infos dir names
  pure (sort_by newer infos)
