-- ===== src/Waf/Exclusions/Lines.antt =====
-- The lines of the overlay of internal/waf/exclusions.go.
use mathlib.Core.Bool.{false≢true}
use caddy_waf_ui.Prelude.{
  ℕ, zero, suc, ◌+◌, ◌/◌, ◌%◌, ◌≡◌, ◌⊎◌, inl, inr, refl, ap, ◌∙◌, sym, Bool, true, false, List, [],
  ◌∷◌, ◌++◌, All, arith, Bool-cases, length, ◌==◌, ==_iff, if◌then◌else◌,
}
use caddy_waf_ui.Text.{Bytes, str, beq, is_digit}
use caddy_waf_ui.Text.Laws.{beq_iff}
use caddy_waf_ui.Waf.Exclusions.{
  Exclusion, ExclusionRow, exclude_by_id, exclude_by_tag, is_tag_byte, digits_on, decimal_text,
  targeted, render_row, render_rows,
}
use caddy_waf_ui.Waf.Exclusions.Valid.{IsText, IsExclusion}

-- The number of newlines.
unfoldable pub lines : Bytes → ℕ
lines [] = 0
lines (c ∷ cs) = (if c == 10 then 1 else 0) + lines cs

pub lines-append : (s t : Bytes) → lines (s ++ t) ≡ lines s + lines t
unfolding lines
lines-append [] t = omega arith
lines-append (c ∷ cs) t = ground (arith, lines-append cs t)

class_lines :
    (class : ℕ → Bool) (s : Bytes) → class 10 ≡ false → All (λ c. class c ≡ true) s → lines s ≡ 0
unfolding lines
class_lines class [] free h = refl
class_lines class (c ∷ cs) free h = elim (Bool-cases (c == 10)) [
  | inl newline ↦ absurd (false≢true (sym free ∙ ap class (sym ((==_iff c 10).0 newline)) ∙ h.0))
  | inr other ↦ ground (arith, other, class_lines class cs free h.1)
]

digits_on-lines : (fuel n : ℕ) (acc : Bytes) → lines acc ≡ 0 → lines (digits_on fuel n acc) ≡ 0
unfolding digits_on lines
digits_on-lines zero n acc h = h
digits_on-lines (suc fuel) n acc h =
    let digit : lines ((b'0' + n % 10) ∷ acc) ≡ 0 = ground (arith, h) in
    ground (arith, digit, digits_on-lines fuel (n / 10) ((b'0' + n % 10) ∷ acc) digit)

decimal_text-lines : (n : ℕ) → lines (decimal_text n) ≡ 0
unfolding decimal_text lines
decimal_text-lines n = digits_on-lines (suc n) n [] refl

pub skip-lines : (s t : Bytes) (n : ℕ) → lines s ≡ 0 → lines t ≡ n → lines (s ++ t) ≡ n
skip-lines s t n h k = omega (arith, lines-append s t, h, k)

-- A text without a newline ends with one.
end_line : (s rest : Bytes) → lines s ≡ 0 → lines (s ++ (10 ∷ rest)) ≡ suc (lines rest)
unfolding lines
end_line s rest h = omega (arith, lines-append s (10 ∷ rest), h)

text-lines :
    (class : ℕ → Bool) (s : Bytes) → class 10 ≡ false → (s ≡ []) ⊎ IsText class s → lines s ≡ 0
unfolding lines
text-lines class s free (inl empty) = rw empty refl
text-lines class s free (inr text) = class_lines class s free text.in_class

value-lines : (ex : Exclusion) → IsExclusion ex → lines ex.value ≡ 0
unfolding is_digit
value-lines ex valid = elim valid.value [
  | inl by_id ↦ text-lines is_digit ex.value refl (inr by_id.1)
  | inr by_tag ↦ text-lines is_tag_byte ex.value refl (inr by_tag.1)
]

targeted-lines :
    (control rest : Bytes) (row : ExclusionRow)
    → lines control ≡ 0
    → IsExclusion row.exclusion
    → lines (targeted control row rest) ≡ suc (lines rest)
unfolding lines is_digit
targeted-lines control rest row h valid =
    let n = suc (lines rest) in
    let param = text-lines is_tag_byte row.exclusion.param refl valid.param in
    skip-lines (str "SecRule ARGS:") _ n refl (
      skip-lines row.exclusion.param _ n param (
        skip-lines (str " \"@unconditionalMatch\" \"id:") _ n refl (
          skip-lines (decimal_text row.id) _ n (decimal_text-lines row.id) (
            skip-lines (str ",phase:2,pass,nolog,ctl:") _ n refl (
              skip-lines control _ n h (
                skip-lines row.exclusion.value _ n (value-lines row.exclusion valid)
                  (end_line (str "\"") rest refl)))))))

render_row-lines :
    (row : ExclusionRow) (rest : Bytes)
    → IsExclusion row.exclusion
    → lines (render_row row rest) ≡ suc (lines rest)
unfolding render_row lines beq
render_row-lines row rest valid =
    let ex = row.exclusion in
    let value = value-lines ex valid in
    elim (Bool-cases (beq ex.type exclude_by_id)) [
      | inl by_id ↦ elim (Bool-cases (beq ex.param [])) [
        | inl bare ↦
            rw (by_id, bare, render_row)
              (skip-lines (str "SecRuleRemoveById ") (ex.value ++ (str "\n" ++ rest))
                (suc (lines rest)) refl (end_line ex.value rest value))
        | inr param ↦
            rw (by_id, param, render_row)
              (targeted-lines (str "ruleRemoveById=") rest row refl valid)
      ]
      | inr not_id ↦
          let by_tag : beq ex.type exclude_by_tag ≡ true = elim valid.value [
            | inl h ↦ absurd (false≢true (sym not_id ∙ (beq_iff ex.type exclude_by_id).1 h.0))
            | inr h ↦ (beq_iff ex.type exclude_by_tag).1 h.0
          ] in
          elim (Bool-cases (beq ex.param [])) [
            | inl bare ↦
                rw (not_id, by_tag, bare, render_row)
                  (skip-lines (str "SecRuleRemoveByTag \"") (ex.value ++ (str "\"\n" ++ rest))
                    (suc (lines rest)) refl
                    (skip-lines ex.value (str "\"\n" ++ rest) (suc (lines rest)) value
                      (end_line (str "\"") rest refl)))
            | inr param ↦
                rw (not_id, by_tag, param, render_row)
                  (targeted-lines (str "ruleRemoveByTag=") rest row refl valid)
          ]
    ]

-- The overlay of a valid list has one line for each of its rows: no value or parameter starts a line
-- of its own, so that none can bring in a directive.
pub render_rows-lines :
    (rows : List ExclusionRow) (rest : Bytes)
    → All (λ row. IsExclusion row.exclusion) rows
    → lines (render_rows rows rest) ≡ length rows + lines rest
unfolding render_rows
render_rows-lines [] rest valid = omega arith
render_rows-lines (row ∷ rows) rest valid = omega (
  arith,
  render_row-lines row (render_rows rows rest) valid.0,
  render_rows-lines rows rest valid.1,
)
