-- ===== src/Waf/Exclusions/Valid.antt =====
-- What `validateExclusions` of internal/waf/exclusions.go accepts.
use mathlib.Core.Bool.{false≢true}
use caddy_waf_ui.Prelude.{
  ℕ, Bool, true, ◌≡◌, ◌≢◌, ◌⊎◌, ◌↔◌, inl, inr, refl, sym, ◌∙◌, none, List, [], ◌∷◌, All, all, arith,
  Bool-cases,
}
use caddy_waf_ui.Text.{Bytes, beq, is_digit}
use caddy_waf_ui.Text.Laws.{beq_iff}
use caddy_waf_ui.Waf.Exclusions.{
  Exclusion, exclude_by_id, exclude_by_tag, is_tag_byte, matches_class, check_value, check_param,
  validate_exclusions,
}

-- A text of one byte or more, all of the class.
pub record IsText (class : ℕ → Bool) (text : Bytes) : Type 0 where
  pub filled : text ≢ []
  pub in_class : All (λ c. class c ≡ true) text

-- An exclusion by a number or by a tag, with no parameter or one that reads like a tag.
pub record IsExclusion (ex : Exclusion) : Type 0 where
  pub value :
      ((ex.type ≡ exclude_by_id) × IsText is_digit ex.value)
      ⊎ ((ex.type ≡ exclude_by_tag) × IsText is_tag_byte ex.value)
  pub param : (ex.param ≡ []) ⊎ IsText is_tag_byte ex.param

all_iff : (class : ℕ → Bool) (s : Bytes) → (all class s ≡ true) ↔ All (λ c. class c ≡ true) s
all_iff class [] = ((λ h. tt), (λ h. refl))
all_iff class (c ∷ cs) = ground (arith, all_iff class cs)

matches_class_iff : (class : ℕ → Bool) (s : Bytes) → (matches_class class s ≡ true) ↔ IsText class s
matches_class_iff class [] = ((λ h. absurd (cc)), (λ h. absurd (h.filled refl)))
matches_class_iff class (c ∷ cs) = (
  (λ h. record { filled = λ e. absurd (cc); in_class = (all_iff class (c ∷ cs)).0 h }),
  (λ h. (all_iff class (c ∷ cs)).1 h.in_class),
)

pub types_apart : exclude_by_id ≢ exclude_by_tag
unfolding beq
types_apart same = false≢true ((beq_iff exclude_by_id exclude_by_tag).1 same)

check_value_iff :
    (ex : Exclusion)
    → (check_value ex ≡ none) ↔ (
        ((ex.type ≡ exclude_by_id) × IsText is_digit ex.value)
        ⊎ ((ex.type ≡ exclude_by_tag) × IsText is_tag_byte ex.value))
unfolding check_value
check_value_iff ex = elim (Bool-cases (beq ex.type exclude_by_id)) [
  | inl by_id ↦
      let type = (beq_iff ex.type exclude_by_id).0 by_id in
      let value = matches_class_iff is_digit ex.value in
      (
        (λ h. inl (type, value.0 (ground (arith, h, by_id)))),
        (λ h. elim h [
          | inl found ↦ let good = value.1 found.1 in ground (arith, by_id, good)
          | inr found ↦ absurd (types_apart (sym type ∙ found.0))
        ]),
      )
  | inr not_id ↦
      let value = matches_class_iff is_tag_byte ex.value in
      (
        (λ h. inr (
          (beq_iff ex.type exclude_by_tag).0 (ground (arith, h, not_id)),
          value.0 (ground (arith, h, not_id)),
        )),
        (λ h. elim h [
          | inl found ↦
              let by_id = (beq_iff ex.type exclude_by_id).1 found.0 in
              absurd (ground (arith, by_id, not_id))
          | inr found ↦
              let by_tag = (beq_iff ex.type exclude_by_tag).1 found.0 in
              let good = value.1 found.1 in ground (arith, not_id, by_tag, good)
        ]),
      )
]

check_param_iff :
    (ex : Exclusion) → (check_param ex ≡ none) ↔ ((ex.param ≡ []) ⊎ IsText is_tag_byte ex.param)
unfolding check_param
check_param_iff ex = ground (arith, beq_iff ex.param [], matches_class_iff is_tag_byte ex.param)

-- The validation accepts a list exactly when each entry is an exclusion by digits or by a tag.
pub validate_exclusions_iff :
    (exs : List Exclusion) → (validate_exclusions exs ≡ none) ↔ All IsExclusion exs
unfolding validate_exclusions
validate_exclusions_iff [] = ((λ h. tt), (λ h. refl))
validate_exclusions_iff (ex ∷ exs) =
    let rest = validate_exclusions_iff exs in
    let value = check_value_iff ex in
    let param = check_param_iff ex in
    (
      (λ h.
          let good : check_value ex ≡ none = ground (arith, h) in
          let good_param : check_param ex ≡ none = ground (arith, h, good) in
          (
            record { value = value.0 good; param = param.0 good_param },
            rest.0 (ground (arith, h, good, good_param)),
          )),
      (λ h. rw (value.1 h.0.value, param.1 h.0.param, validate_exclusions) (rest.1 h.1)),
    )
