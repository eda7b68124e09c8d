-- ===== src/Files/Backup/Others.antt =====
-- A backup changes no other snapshot than the one that it takes; its retention removes some.
use caddy_waf_ui.Prelude.{ℕ, ◌≡◌, ◌≢◌, refl, ◌∙◌, Option, List, [], ◌∷◌}
use caddy_waf_ui.Text.{Bytes}
use caddy_waf_ui.Errors.{Result, ok, err}
use caddy_waf_ui.System.{Context, Exec, pure}
use caddy_waf_ui.System.Store.{FilePath}
use caddy_waf_ui.System.Calls.{create, write}
use caddy_waf_ui.System.Frame.{
  Quiet, quiet_rules, Quiet-pure, Quiet-create, Quiet-write, Quiet-read_dir, Quiet-stat,
}
use caddy_waf_ui.System.Stable.{
  Stable, Stable-Quiet, Stable-if, Stable-bind, Stable-finally, Stable-wrap, Stable-remove,
}
use caddy_waf_ui.Files.Backup.{
  copy_file, remove_all, enforce_retention, snapshot_path, source_path, take_snapshot, after_stat,
  backup,
}

module _ (q : FilePath) (content : Option Bytes) where
  -- Only the file.
  record IsFile (p : FilePath) : Type 0 where
    is : p ≡ q

  Quiet-Stable : {A : Type 0} (m : Exec A) → Quiet IsFile m → Stable q content m
  Quiet-Stable m quiet = Stable-Quiet q content m quiet (record { is = refl })

  Stable-remove_all : (dir : Bytes) (names : List Bytes) → Stable q content (remove_all dir names)
  unfolding remove_all
  Stable-remove_all dir [] = Quiet-Stable _ (search quiet_rules)
  Stable-remove_all dir (name ∷ names) =
      Stable-bind q content _ _
        (Stable-wrap q content _ _ (Stable-remove q content (record { dir = dir; name = name })))
        (λ a. Stable-remove_all dir names)

  Stable-enforce_retention :
      (dir file_type : Bytes) (limit : ℕ) → Stable q content (enforce_retention dir file_type limit)
  unfolding enforce_retention
  Stable-enforce_retention dir file_type limit =
      Stable-bind q content _ _ (Quiet-Stable _ (Quiet-read_dir dir)) (λ entries.
        Stable-if q content _ _ _ (Quiet-Stable (pure tt) (Quiet-pure tt))
          (Stable-remove_all dir _))

  module _ (ctx : Context) (domain_name file_type : Bytes)
      (other : snapshot_path ctx domain_name file_type ≢ q) where
    away : (r : FilePath) → IsFile r → snapshot_path ctx domain_name file_type ≢ r
    away r is same = other (same ∙ is.is)

    Quiet-create_other : Quiet IsFile (create (snapshot_path ctx domain_name file_type))
    Quiet-create_other = Quiet-create _ away

    Quiet-write_other :
        (text : Bytes) → Quiet IsFile (write (snapshot_path ctx domain_name file_type) text)
    Quiet-write_other = Quiet-write _ away

    Quiet-copy_other : Quiet IsFile (
        copy_file (source_path ctx domain_name file_type) (snapshot_path ctx domain_name file_type))
    unfolding copy_file
    Quiet-copy_other = search (quiet_rules, Quiet-create_other, Quiet-write_other)

    Stable-take_snapshot : Stable q content (take_snapshot ctx domain_name file_type)
    unfolding take_snapshot
    Stable-take_snapshot = Stable-bind q content _ _ (Quiet-Stable _ (search quiet_rules)) (λ a.
        Stable-bind q content _ _ (Quiet-Stable _ (search (quiet_rules, Quiet-copy_other)))
          (λ b. Stable-enforce_retention _ _ _))

    Stable-after_stat :
        (r : Result (Unit {0})) → Stable q content (after_stat ctx domain_name file_type r)
    unfolding after_stat
    Stable-after_stat (ok a) = Stable-take_snapshot
    Stable-after_stat (err e) = Quiet-Stable _ (search quiet_rules)

    pub Stable-backup : Stable q content (backup ctx domain_name file_type)
    unfolding backup
    Stable-backup = Stable-finally q content _ _ (Quiet-Stable _ (Quiet-stat _)) Stable-after_stat
