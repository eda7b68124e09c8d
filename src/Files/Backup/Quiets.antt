-- ===== src/Files/Backup/Quiets.antt =====
-- A backup leaves the overlays and the audit trail as they are.
use caddy_waf_ui.Prelude.{ℕ, ◌≡◌, ◌≢◌, refl, sym, ◌∙◌, List, [], ◌∷◌, ap}
use caddy_waf_ui.Text.{Bytes}
use caddy_waf_ui.Errors.{Result, ok, err}
use caddy_waf_ui.System.{Context}
use caddy_waf_ui.System.Store.{FilePath}
use caddy_waf_ui.System.Calls.{remove, create, write}
use caddy_waf_ui.System.Frame.{
  Quiet, quiet_rules, Quiet-bind, Quiet-remove, Quiet-create, Quiet-write,
}
use caddy_waf_ui.Config.{backup_dir}
use caddy_waf_ui.Files.Naming.{backup_dir_path}
use caddy_waf_ui.Files.Backup.{
  copy_file, remove_all, enforce_retention, snapshot_path, source_path, take_snapshot, after_stat,
  backup,
}

-- Files of the other directories.
pub record Outside (dir : Bytes) (q : FilePath) : Type 0 where
  pub other_dir : q.dir ≢ dir

Outside-ne : (dir : Bytes) (p : FilePath) → p.dir ≡ dir → (q : FilePath) → Outside dir q → p ≢ q
Outside-ne dir p e q o same = o.other_dir (ap (λ r. r.dir) (sym same) ∙ e)

module _ (dir : Bytes) where
  Quiet-remove_in :
      (name : Bytes) → Quiet (Outside dir) (remove (record { dir = dir; name = name }))
  Quiet-remove_in name = Quiet-remove _ (Outside-ne dir _ refl)

  Quiet-remove_all : (names : List Bytes) → Quiet (Outside dir) (remove_all dir names)
  unfolding remove_all
  Quiet-remove_all [] = search quiet_rules
  Quiet-remove_all (name ∷ names) =
      Quiet-bind _ _ (search (quiet_rules, Quiet-remove_in)) (λ _. Quiet-remove_all names)

  Quiet-enforce_retention :
      (file_type : Bytes) (limit : ℕ) → Quiet (Outside dir) (enforce_retention dir file_type limit)
  unfolding enforce_retention
  Quiet-enforce_retention file_type limit = search (quiet_rules, Quiet-remove_all)

module _ (ctx : Context) (domain_name file_type : Bytes) where
  abbrev snapshots_dir : Bytes
  snapshots_dir = backup_dir_path (backup_dir ctx.env) domain_name

  Quiet-create_in : Quiet (Outside snapshots_dir) (create (snapshot_path ctx domain_name file_type))
  Quiet-create_in = Quiet-create _ (Outside-ne _ _ refl)

  Quiet-write_in :
      (content : Bytes)
      → Quiet (Outside snapshots_dir) (write (snapshot_path ctx domain_name file_type) content)
  Quiet-write_in = Quiet-write _ (Outside-ne _ _ refl)

  Quiet-copy_file :
      Quiet (Outside snapshots_dir) (
        copy_file (source_path ctx domain_name file_type) (snapshot_path ctx domain_name file_type))
  unfolding copy_file
  Quiet-copy_file = search (quiet_rules, Quiet-create_in, Quiet-write_in)

  Quiet-take_snapshot : Quiet (Outside snapshots_dir) (take_snapshot ctx domain_name file_type)
  unfolding take_snapshot
  Quiet-take_snapshot = search (quiet_rules, Quiet-copy_file, Quiet-enforce_retention)

  Quiet-after_stat :
      (r : Result (Unit {0}))
      → Quiet (Outside snapshots_dir) (after_stat ctx domain_name file_type r)
  unfolding after_stat
  Quiet-after_stat (ok a) = Quiet-take_snapshot
  Quiet-after_stat (err e) = search quiet_rules

  -- Whatever happens in it, a backup writes to the directory of the domain's snapshots only.
  pub Quiet-backup : Quiet (Outside snapshots_dir) (backup ctx domain_name file_type)
  unfolding backup
  Quiet-backup = search (quiet_rules, Quiet-after_stat)
