-- ===== src/Ui/Overlay.antt =====
-- internal/ui/overlay.go: the readers of the overlays that the program itself generates.
pub mod Lines
pub mod Rows
pub mod Words
pub mod Blocks
pub mod Rules
pub mod RoundTrip
pub mod Reading
use caddy_waf_ui.Prelude.{
  ◌||◌, ℕ, Bool, true, false, not, Option, none, some, List, [], ◌∷◌, ◌++◌, ◌==◌, if◌then◌else◌,
}
use caddy_waf_ui.Text.{Bytes, str, beq, split, trim_space, is_space, is_digit}
use caddy_waf_ui.Text.Pattern.{Piece, literal, class, group, is_blank, strip, match_line}
use caddy_waf_ui.Waf.Exclusions.{Exclusion, exclude_by_id, exclude_by_tag, is_tag_byte}
use caddy_waf_ui.IpRules.{IpRules}
use caddy_waf_ui.Errors.{Error}
use caddy_waf_ui.System.{Context, Exec, pure, raise, catch, ◌>>=◌}
use caddy_waf_ui.System.Store.{FilePath}
use caddy_waf_ui.System.Calls.{read_file}
use caddy_waf_ui.Config.{managed_dir}
use caddy_waf_ui.Files.Naming.{exclusions_config_path, ip_rules_config_path}
use caddy_waf_ui.Files.Backup.{is_not_exist}

-- The four patterns of a line.
abbrev pub exclusion_url_line : List Piece
exclusion_url_line = literal (str "SecRuleRemoveById") ∷ (class is_blank ∷ (group is_digit ∷ []))

abbrev pub exclusion_tag_line : List Piece
exclusion_tag_line =
    literal (str "SecRuleRemoveByTag")
    ∷ (class is_blank ∷ (literal (str "\"") ∷ (group is_tag_byte ∷ (literal (str "\"") ∷ []))))

-- The common beginning of the two patterns with a parameter.
abbrev pub target_line : List Piece → List Piece
target_line end =
    literal (str "SecRule ARGS:")
    ∷ (group is_tag_byte
        ∷ (class is_blank
            ∷ (literal (str "\"@unconditionalMatch\"")
                ∷ (class is_blank ∷ (literal (str "\"id:") ∷ (class is_digit ∷ end))))))

abbrev pub target_id_end : List Piece
target_id_end =
    literal (str ",phase:2,pass,nolog,ctl:ruleRemoveById=")
    ∷ (group is_digit ∷ (literal (str "\"") ∷ []))

abbrev pub target_tag_end : List Piece
target_tag_end =
    literal (str ",phase:2,pass,nolog,ctl:ruleRemoveByTag=")
    ∷ (group is_tag_byte ∷ (literal (str "\"") ∷ []))

abbrev pub exclusion_target_id : List Piece
exclusion_target_id = target_line target_id_end

abbrev pub exclusion_target_tag : List Piece
exclusion_target_tag = target_line target_tag_end

-- The exclusion of the groups of a match.
abbrev pub bare : Bytes → Option (List Bytes) → Option Exclusion
bare type (some (value ∷ _)) = some (record { type = type; value = value; param = [] })
bare type _ = none

abbrev pub targeted : Bytes → Option (List Bytes) → Option Exclusion
targeted type (some (param ∷ (value ∷ _))) =
    some (record { type = type; value = value; param = param })
targeted type _ = none

abbrev pub or_else : {A : Type 0} → Option A → Option A → Option A
or_else none other = other
or_else (some a) other = some a

-- The switch, on a trimmed line.
unfoldable pub exclusion_of : Bytes → Option Exclusion
exclusion_of trimmed = or_else (bare exclude_by_id (match_line exclusion_url_line trimmed)) (
    or_else (bare exclude_by_tag (match_line exclusion_tag_line trimmed)) (
      or_else (targeted exclude_by_id (match_line exclusion_target_id trimmed))
        (targeted exclude_by_tag (match_line exclusion_target_tag trimmed))))

abbrev pub appended : {A : Type 0} → Option A → List A → List A
appended none rest = rest
appended (some a) rest = a ∷ rest

unfoldable pub exclusions_of : List Bytes → List Exclusion
unfolding exclusion_of
exclusions_of [] = []
exclusions_of (line ∷ lines) = appended (exclusion_of (trim_space line)) (exclusions_of lines)

unfoldable pub parse_exclusions_overlay : Bytes → List Exclusion
unfolding exclusions_of
parse_exclusions_overlay content = exclusions_of (split content 10)

-- `\s*` at the start of a line.
unfoldable pub skip_blanks : Bytes → Bytes
skip_blanks [] = []
skip_blanks (c ∷ s) = let rest = skip_blanks s in if is_blank c then rest else c ∷ s

abbrev unless_empty : Bytes → Option Bytes
unless_empty [] = none
unless_empty (c ∷ s) = some (c ∷ s)

-- `\s+(.+)$`: the blanks take as many bytes as they can and leave one at least.
unfoldable pub blanks_then_rest : Bytes → Option Bytes
blanks_then_rest [] = none
blanks_then_rest (c ∷ s) =
    let more = blanks_then_rest s in if is_blank c then or_else more (unless_empty s) else none

abbrev behind : Option Bytes → Option Bytes
behind none = none
behind (some rest) = blanks_then_rest rest

-- The group of `^\s*remote_ip\s+(.+)$`, and of the pattern with `not` in front.
unfoldable pub ip_rules_line : Bytes → Bytes → Option Bytes
unfolding skip_blanks strip blanks_then_rest
ip_rules_line word line = behind (strip word (skip_blanks line))

abbrev pub deny_word : Bytes
deny_word = str "remote_ip"

abbrev pub allow_word : Bytes
allow_word = str "not remote_ip"

-- strings.Fields: the texts between spaces, the empty ones left out.
abbrev grown : ℕ → List Bytes → List Bytes
grown c [] = (c ∷ []) ∷ []
grown c (w ∷ ws) = (c ∷ w) ∷ ws

-- The first text is the one that a space or the end has not closed yet.
unfoldable pub pieces : Bytes → List Bytes
pieces [] = [] ∷ []
pieces (c ∷ s) = let rest = pieces s in if is_space c then [] ∷ rest else grown c rest

unfoldable pub filled : List Bytes → List Bytes
filled [] = []
filled ([] ∷ ws) = filled ws
filled ((c ∷ w) ∷ ws) = (c ∷ w) ∷ filled ws

unfoldable pub fields : Bytes → List Bytes
unfolding pieces filled
fields s = filled (pieces s)

abbrev pub fields_of : Option Bytes → List Bytes
fields_of none = []
fields_of (some texts) = fields texts

unfoldable pub ip_rules_of : List Bytes → IpRules
unfolding ip_rules_line fields
ip_rules_of [] = record { allowlist = []; denylist = [] }
ip_rules_of (line ∷ lines) =
    let rest = ip_rules_of lines in
    record {
      allowlist = fields_of (ip_rules_line allow_word line) ++ rest.allowlist;
      denylist = fields_of (ip_rules_line deny_word line) ++ rest.denylist;
    }

unfoldable pub parse_ip_rules_overlay : Bytes → IpRules
unfolding ip_rules_of
parse_ip_rules_overlay content = ip_rules_of (split content 10)

-- A missing overlay has no exclusions and no rules.
abbrev if_missing : {A : Type 0} → A → Error → Exec A
if_missing nothing e = if is_not_exist e then pure nothing else raise e

unfoldable pub read_exclusions_file : FilePath → Exec (List Exclusion)
unfolding parse_exclusions_overlay pure raise catch ◌>>=◌ read_file
read_exclusions_file path =
    catch (do content ← read_file path; pure (parse_exclusions_overlay content)) (if_missing [])

unfoldable pub read_exclusions : Context → Bytes → Exec (List Exclusion)
unfolding read_exclusions_file
read_exclusions ctx domain_name =
    read_exclusions_file (exclusions_config_path (managed_dir ctx.env) domain_name)

unfoldable pub read_ip_rules_file : FilePath → Exec IpRules
unfolding parse_ip_rules_overlay pure raise catch ◌>>=◌ read_file
read_ip_rules_file path =
    catch (do content ← read_file path; pure (parse_ip_rules_overlay content))
      (if_missing (record { allowlist = []; denylist = [] }))

unfoldable pub read_ip_rules : Context → Bytes → Exec IpRules
unfolding read_ip_rules_file
read_ip_rules ctx domain_name =
    read_ip_rules_file (ip_rules_config_path (managed_dir ctx.env) domain_name)
