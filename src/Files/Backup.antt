-- ===== src/Files/Backup.antt =====
-- internal/files/backup.go: snapshots of overlays, their retention and their restoration.
pub mod Quiets
pub mod Others
pub mod Retention
pub mod Restore
pub mod Unmarked
use caddy_waf_ui.Prelude.{
  ℕ, zero, suc, ◌-◌, Bool, true, false, not, Option, none, some, List, [], ◌∷◌, ◌++◌, length, take,
  leb, if◌then◌else◌, sort_by,
}
use caddy_waf_ui.Text.{Bytes, str, beq}
use caddy_waf_ui.Errors.{
  Error, not_exist, invalid_backup, wrapped, checking_source, creating_directory, copying_backup,
  removing_old_backup, Result, ok, err,
}
use caddy_waf_ui.System.{World, Context, Exec, pure, raise, lift, catch, wrap, finally, ◌>>=◌, ◌>>◌}
use caddy_waf_ui.System.Store.{FilePath}
use caddy_waf_ui.System.Calls.{
  plain_call, stat, read_file, remove, create, write, read_dir, text_lt,
}
use caddy_waf_ui.Config.{managed_dir, backup_dir, backup_keep}
use caddy_waf_ui.Files.Naming.{
  overlay_name, backup_dir_path, overlay_path, match_backup_name, backup_type, backup_file_name,
}
use caddy_waf_ui.Files.Writer.{atomic_write}

pub record BackupInfo : Type 0 where
  pub timestamp : Bytes
  pub file_type : Bytes
  pub size : ℕ

-- The deferred Close calls drop their errors and change no content, so they are left out.
copy_file : FilePath → FilePath → Exec (Unit {0})
copy_file src dst = do stat src; create dst; content ← read_file src; write dst content

-- The canonical snapshots of one type among the names of a directory.
abbrev pub has_type : Bytes → Option (Bytes × Bytes) → Bool
has_type file_type none = false
has_type file_type (some (stamp, t)) = beq t file_type

pub snapshots_of : Bytes → List Bytes → List Bytes
snapshots_of file_type [] = []
snapshots_of file_type (name ∷ names) =
    let rest = snapshots_of file_type names in
    if has_type file_type (match_backup_name name) then name ∷ rest else rest

-- The loop that removes the oldest.
remove_all : Bytes → List Bytes → Exec (Unit {0})
remove_all dir [] = pure tt
remove_all dir (name ∷ names) = do
  wrap removing_old_backup (remove (record { dir = dir; name = name }))
  remove_all dir names

-- What the loop removes: the first of the sorted names, as many as pass the limit.
abbrev oldest : ℕ → List Bytes → List Bytes
oldest limit backups = take (length backups - limit) (sort_by text_lt backups)

pub enforce_retention : Bytes → Bytes → ℕ → Exec (Unit {0})
unfolding remove_all snapshots_of
enforce_retention dir file_type limit = do
  entries ← read_dir dir
  let backups = snapshots_of file_type entries
  if leb (length backups) limit then pure tt else remove_all dir (oldest limit backups)

-- os.IsNotExist on the error of Stat.
abbrev pub is_not_exist : Error → Bool
is_not_exist not_exist = true
is_not_exist _ = false

abbrev pub snapshot_path : Context → Bytes → Bytes → FilePath
snapshot_path ctx domain_name file_type = record {
  dir = backup_dir_path (backup_dir ctx.env) domain_name;
  name = backup_file_name ctx.stamp file_type;
}

abbrev source_path : Context → Bytes → Bytes → FilePath
source_path ctx domain_name file_type = record {
  dir = managed_dir ctx.env;
  name = overlay_name file_type domain_name;
}

-- Steps 2 to 4 of `Backup`, once the source is known to be there.
take_snapshot : Context → Bytes → Bytes → Exec (Unit {0})
take_snapshot ctx domain_name file_type = do
  wrap creating_directory plain_call
  wrap copying_backup
      (copy_file (source_path ctx domain_name file_type) (snapshot_path ctx domain_name file_type))
  enforce_retention (backup_dir_path (backup_dir ctx.env) domain_name) file_type
      (backup_keep ctx.env)

-- Without a source there is nothing to back up; any other error of Stat is passed on.
after_stat : Context → Bytes → Bytes → Result (Unit {0}) → Exec (Unit {0})
after_stat ctx domain_name file_type (ok a) = take_snapshot ctx domain_name file_type
after_stat ctx domain_name file_type (err e) =
    if is_not_exist e then pure tt else raise (wrapped checking_source e)

pub backup : Context → Bytes → Bytes → Exec (Unit {0})
unfolding after_stat
backup ctx domain_name file_type =
    finally (stat (source_path ctx domain_name file_type)) (after_stat ctx domain_name file_type)

-- A missing snapshot is an invalid one; any other error of ReadFile is passed on.
abbrev restore_error : Bytes → Error → Error
restore_error snapshot_id e = if is_not_exist e then invalid_backup snapshot_id else e

pub restore_backup : Context → Bytes → Bytes → Exec (Unit {0})
restore_backup ctx domain_name snapshot_id = do
  file_type ← lift (backup_type snapshot_id)
  content ←
      catch
        (read_file
          (record { dir = backup_dir_path (backup_dir ctx.env) domain_name; name = snapshot_id }))
        (λ e. raise (restore_error snapshot_id e))
  conf_path ← lift (overlay_path (managed_dir ctx.env) file_type domain_name)
  atomic_write ctx conf_path content
