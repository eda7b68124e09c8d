-- ===== src/Waf/Exclusions.antt =====
-- internal/waf/exclusions.go: validation, deduplication and rendering of the excluded rules.
pub mod Valid
pub mod Lines
pub mod Unique
pub mod Deduped
pub mod Directives
pub mod Generated
use caddy_waf_ui.Prelude.{
  ℕ, zero, suc, ◌+◌, ◌/◌, ◌%◌, Bool, false, not, ◌&&◌, ◌||◌, Option, none, some, List, [], ◌∷◌,
  ◌++◌, leb, ◌==◌, if◌then◌else◌, all, any,
}
use caddy_waf_ui.Text.{Bytes, str, beq, is_digit}
use caddy_waf_ui.Errors.{
  Error, invalid_id, invalid_tag, unknown_type, invalid_param, Result, ok, err,
}
use caddy_waf_ui.Domain.Model.{Site}
use caddy_waf_ui.Domain.Overlay.{header}
use caddy_waf_ui.Waf.Mode.{managed_note}

-- The type of an exclusion is a string of the request.
abbrev pub exclude_by_id : Bytes
exclude_by_id = str "id"

abbrev pub exclude_by_tag : Bytes
exclude_by_tag = str "tag"

pub record Exclusion : Type 0 where
  pub type : Bytes
  pub value : Bytes
  pub param : Bytes

abbrev pub id_base : ℕ
id_base = 9000001

abbrev pub is_tag_byte : ℕ → Bool
is_tag_byte c =
    (leb b'A' c && leb c b'Z')
    || ((leb b'a' c && leb c b'z') || (is_digit c || ((c == b'_') || (c == b'-'))))

-- One byte of the class or more, and nothing else.
abbrev pub matches_class : (ℕ → Bool) → Bytes → Bool
matches_class p [] = false
matches_class p (c ∷ cs) = all p (c ∷ cs)

abbrev pub is_id : Bytes → Bool
is_id = matches_class is_digit

abbrev pub is_tag : Bytes → Bool
is_tag = matches_class is_tag_byte

-- The switch on the type.
unfoldable pub check_value : Exclusion → Option Error
check_value ex =
    if beq ex.type exclude_by_id
    then (if is_id ex.value then none else some (invalid_id ex.value))
    else if beq ex.type exclude_by_tag
    then (if is_tag ex.value then none else some (invalid_tag ex.value))
    else some (unknown_type ex.type)

unfoldable pub check_param : Exclusion → Option Error
check_param ex =
    if not (beq ex.param []) && not (is_tag ex.param) then some (invalid_param ex.param) else none

unfoldable pub validate_exclusions : List Exclusion → Option Error
unfolding check_value check_param
validate_exclusions [] = none
validate_exclusions (ex ∷ exs) =
    let rest = validate_exclusions exs in
    elim (check_value ex) [
      | some e ↦ some e
      | none ↦ elim (check_param ex) [ some e ↦ some e | none ↦ rest ]
    ]

-- The key of the map of seen entries: the three texts, with zero bytes between.
abbrev pub key_of : Exclusion → Bytes
key_of ex = ex.type ++ (0 ∷ (ex.value ++ (0 ∷ ex.param)))

abbrev pub seen_in : Bytes → List Bytes → Bool
seen_in key seen = any (beq key) seen

unfoldable pub dedupe_from : List Bytes → List Exclusion → List Exclusion
dedupe_from seen [] = []
dedupe_from seen (ex ∷ exs) =
    let again = dedupe_from seen exs in
    let new = ex ∷ dedupe_from (key_of ex ∷ seen) exs in
    if seen_in (key_of ex) seen then again else new

unfoldable pub dedupe_exclusions : List Exclusion → List Exclusion
unfolding dedupe_from
dedupe_exclusions = dedupe_from []

pub record ExclusionRow : Type 0 where
  pub exclusion : Exclusion
  pub id : ℕ

-- The rows with a parameter receive the ids 9000001 and up, in order.
unfoldable pub rows_from : ℕ → List Exclusion → List ExclusionRow
rows_from next [] = []
rows_from next (ex ∷ exs) =
    let bare = beq ex.param [] in
    record { exclusion = ex; id = if bare then 0 else next }
    ∷ rows_from (if bare then next else next + 1) exs

-- The decimal digits of a number, on fuel that covers one digit a step.
unfoldable pub digits_on : ℕ → ℕ → Bytes → Bytes
digits_on zero n acc = acc
digits_on (suc fuel) n acc =
    let more = digits_on fuel (n / 10) ((b'0' + n % 10) ∷ acc) in
    if n / 10 == 0 then (b'0' + n % 10) ∷ acc else more

unfoldable pub decimal_text : ℕ → Bytes
unfolding digits_on
decimal_text n = digits_on (suc n) n []

abbrev pub targeted : Bytes → ExclusionRow → Bytes → Bytes
targeted control row rest =
    str "SecRule ARGS:"
    ++ (row.exclusion.param
        ++ (str " \"@unconditionalMatch\" \"id:"
            ++ (decimal_text row.id
                ++ (str ",phase:2,pass,nolog,ctl:"
                    ++ (control ++ (row.exclusion.value ++ (str "\"\n" ++ rest)))))))

-- One turn of the range of the template, with the text that follows it.
unfoldable pub render_row : ExclusionRow → Bytes → Bytes
render_row row rest =
    let ex = row.exclusion in
    if beq ex.type exclude_by_id
    then (if beq ex.param []
        then str "SecRuleRemoveById " ++ (ex.value ++ (str "\n" ++ rest))
        else targeted (str "ruleRemoveById=") row rest)
    else if beq ex.type exclude_by_tag
    then (if beq ex.param []
        then str "SecRuleRemoveByTag \"" ++ (ex.value ++ (str "\"\n" ++ rest))
        else targeted (str "ruleRemoveByTag=") row rest)
    else rest

unfoldable pub render_rows : List ExclusionRow → Bytes → Bytes
unfolding render_row
render_rows [] rest = rest
render_rows (row ∷ rows) rest = render_row row (render_rows rows rest)

abbrev pub body : List ExclusionRow → Bytes
body [] = str "# No exclusions configured for this domain.\n\n"
body (row ∷ rows) = render_rows (row ∷ rows) (str "\n")

unfoldable pub generate_exclusions : Site → List Exclusion → Bytes → Result Bytes
unfolding validate_exclusions dedupe_exclusions rows_from render_rows
generate_exclusions site exclusions ts = elim (validate_exclusions exclusions) [
  | some e ↦ err e
  | none ↦ ok (
      managed_note
      ++ (header site.domain [] ts
          ++ (str "\n\n" ++ body (rows_from id_base (dedupe_exclusions exclusions)))))
]
