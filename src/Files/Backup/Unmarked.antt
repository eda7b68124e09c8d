-- ===== src/Files/Backup/Unmarked.antt =====
-- The errors of `Backup` of internal/files/backup.go.
use caddy_waf_ui.Prelude.{ℕ, List, [], ◌∷◌}
use caddy_waf_ui.Text.{Bytes}
use caddy_waf_ui.Errors.{Result, ok, err}
use caddy_waf_ui.System.{Context}
use caddy_waf_ui.System.Store.{FilePath}
use caddy_waf_ui.System.Unmarked.{Unmarked, UnmarkedResult, unmarked_rules, Unmarked-bind}
use caddy_waf_ui.Files.Backup.{
  copy_file, remove_all, enforce_retention, take_snapshot, after_stat, backup,
}

Unmarked-copy_file : (src dst : FilePath) → Unmarked (copy_file src dst)
unfolding copy_file
Unmarked-copy_file src dst = search unmarked_rules

Unmarked-remove_all : (dir : Bytes) (names : List Bytes) → Unmarked (remove_all dir names)
unfolding remove_all
Unmarked-remove_all dir [] = search unmarked_rules
Unmarked-remove_all dir (name ∷ names) =
    Unmarked-bind _ _ (search unmarked_rules) (λ _. Unmarked-remove_all dir names)

Unmarked-enforce_retention :
    (dir file_type : Bytes) (limit : ℕ) → Unmarked (enforce_retention dir file_type limit)
unfolding enforce_retention
Unmarked-enforce_retention dir file_type limit = search (unmarked_rules, Unmarked-remove_all)

Unmarked-take_snapshot :
    (ctx : Context) (domain_name file_type : Bytes)
    → Unmarked (take_snapshot ctx domain_name file_type)
unfolding take_snapshot
Unmarked-take_snapshot ctx domain_name file_type =
    search (unmarked_rules, Unmarked-copy_file, Unmarked-enforce_retention)

Unmarked-after_stat :
    (ctx : Context) (domain_name file_type : Bytes) (r : Result (Unit {0}))
    → UnmarkedResult r
    → Unmarked (after_stat ctx domain_name file_type r)
unfolding after_stat
Unmarked-after_stat ctx domain_name file_type (ok a) h =
    Unmarked-take_snapshot ctx domain_name file_type
Unmarked-after_stat ctx domain_name file_type (err e) h = search unmarked_rules

pub Unmarked-backup :
    (ctx : Context) (domain_name file_type : Bytes) → Unmarked (backup ctx domain_name file_type)
unfolding backup
Unmarked-backup ctx domain_name file_type = search (unmarked_rules, Unmarked-after_stat)
