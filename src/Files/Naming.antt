-- ===== src/Files/Naming.antt =====
-- internal/files/naming.go and the name pattern of backup.go.
use caddy_waf_ui.Prelude.{
  Bool, true, false, ◌&&◌, Option, none, some, [], ◌∷◌, ◌++◌, take, drop, ◌==◌, if◌then◌else◌, ◌≡◌,
  arith, Bool-cases, inl, inr,
}
use caddy_waf_ui.Text.{Bytes, str, beq, is_digit}
use caddy_waf_ui.Errors.{invalid_backup, unknown_overlay, Result, ok, err}
use caddy_waf_ui.System.Store.{FilePath}
use caddy_waf_ui.Domain.Slug.{domain_slug}

abbrev pub file_type_waf : Bytes
file_type_waf = str "waf"

abbrev pub file_type_exclusions : Bytes
file_type_exclusions = str "exclusions"

abbrev pub file_type_ip_rules : Bytes
file_type_ip_rules = str "ip-rules"

-- "%s-%s.conf" of a type and the slug of a domain.
abbrev pub overlay_name : Bytes → Bytes → Bytes
overlay_name file_type domain_name =
    file_type ++ (str "-" ++ (domain_slug domain_name ++ str ".conf"))

unfoldable pub waf_config_path : Bytes → Bytes → FilePath
waf_config_path dir domain_name = record {
  dir = dir;
  name = overlay_name file_type_waf domain_name;
}

unfoldable pub exclusions_config_path : Bytes → Bytes → FilePath
exclusions_config_path dir domain_name = record {
  dir = dir;
  name = overlay_name file_type_exclusions domain_name;
}

unfoldable pub ip_rules_config_path : Bytes → Bytes → FilePath
ip_rules_config_path dir domain_name = record {
  dir = dir;
  name = overlay_name file_type_ip_rules domain_name;
}

unfoldable pub backup_dir_path : Bytes → Bytes → Bytes
backup_dir_path backup_dir domain_name = backup_dir ++ (str "/" ++ domain_slug domain_name)

unfoldable pub overlay_path : Bytes → Bytes → Bytes → Result FilePath
unfolding waf_config_path exclusions_config_path ip_rules_config_path beq
overlay_path dir file_type domain_name =
    if beq file_type file_type_waf
    then ok (waf_config_path dir domain_name)
    else if beq file_type file_type_exclusions
    then ok (exclusions_config_path dir domain_name)
    else if beq file_type file_type_ip_rules
    then ok (ip_rules_config_path dir domain_name)
    else err (unknown_overlay file_type)

-- `d` in the shape stands for a digit, any other byte for itself.
unfoldable pub has_shape : Bytes → Bytes → Bool
unfolding is_digit
has_shape [] [] = true
has_shape (s ∷ ss) (c ∷ cs) = (if s == b'd' then is_digit c else c == s) && has_shape ss cs
has_shape _ _ = false

abbrev pub stamp_shape : Bytes
stamp_shape = str "dddd-dd-ddTdd-dd-ddZ"

-- The second group of the pattern, with what stands round it.
abbrev type_of : Bytes → Option Bytes
type_of rest =
    if beq rest (str ".waf.conf")
    then some file_type_waf
    else if beq rest (str ".exclusions.conf")
    then some file_type_exclusions
    else if beq rest (str ".ip-rules.conf")
    then some file_type_ip_rules
    else none

abbrev with_stamp : Bytes → Option Bytes → Option (Bytes × Bytes)
with_stamp stamp none = none
with_stamp stamp (some file_type) = some (stamp, file_type)

-- The groups of `backupNamePattern` in a name, if it matches.
unfoldable pub match_backup_name : Bytes → Option (Bytes × Bytes)
unfolding has_shape beq
match_backup_name name =
    if has_shape stamp_shape (take 20 name)
    then with_stamp (take 20 name) (type_of (drop 20 name))
    else none

unfoldable pub backup_type : Bytes → Result Bytes
unfolding match_backup_name
backup_type snapshot_id = elim (match_backup_name snapshot_id) [
  | none ↦ err (invalid_backup snapshot_id)
  | some (stamp, file_type) ↦ ok file_type
]

-- "%s.%s.conf" of a stamp and a type.
abbrev pub backup_file_name : Bytes → Bytes → Bytes
backup_file_name stamp file_type = stamp ++ (str "." ++ (file_type ++ str ".conf"))

-- An overlay lies in the directory of the overlays.
pub overlay_path_dir :
    (dir file_type domain_name : Bytes) {path : FilePath}
    → overlay_path dir file_type domain_name ≡ ok path
    → path.dir ≡ dir
unfolding overlay_path
overlay_path_dir dir file_type domain_name h = elim (Bool-cases (beq file_type file_type_waf)) [
  | inl waf ↦ ground arith
  | inr a ↦ elim (Bool-cases (beq file_type file_type_exclusions)) [
    | inl exclusions ↦ ground arith
    | inr b ↦ ground arith
  ]
]
