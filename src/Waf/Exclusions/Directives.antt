-- ===== src/Waf/Exclusions/Directives.antt =====
-- The directives that the template of internal/waf/exclusions.go writes for a list.
use mathlib.Core.Bool.{false≢true}
use caddy_waf_ui.Prelude.{
  ℕ, ◌+◌, ◌≡◌, inl, inr, sym, ◌∙◌, false, List, [], ◌∷◌, ◌++◌, All, Bool-cases,
}
use caddy_waf_ui.Text.{Bytes, str, beq, is_digit}
use caddy_waf_ui.Text.Laws.{beq_iff}
use caddy_waf_ui.Waf.Exclusions.{
  Exclusion, exclude_by_id, exclude_by_tag, is_tag_byte, decimal_text, rows_from, render_row,
  render_rows,
}
use caddy_waf_ui.Waf.Exclusions.Valid.{IsText, IsExclusion, types_apart}

-- The text of a list's directives, and an empty line: one directive for each exclusion, whose value is
-- a number or a tag and whose parameter, if it has one, reads like a tag; the directives with a
-- parameter have the ids from a number on.
pub data Directives : ℕ → List Exclusion → Bytes → Type 0 where
  none_left : (n : ℕ) → Directives n [] (str "\n")
  remove_id :
      {n : ℕ} {ex : Exclusion} {exs : List Exclusion} {rest : Bytes}
      → ex.type ≡ str "id"
      → IsText is_digit ex.value
      → ex.param ≡ []
      → Directives n exs rest
      → Directives n (ex ∷ exs) (str "SecRuleRemoveById " ++ (ex.value ++ (str "\n" ++ rest)))
  remove_tag :
      {n : ℕ} {ex : Exclusion} {exs : List Exclusion} {rest : Bytes}
      → ex.type ≡ str "tag"
      → IsText is_tag_byte ex.value
      → ex.param ≡ []
      → Directives n exs rest
      → Directives n (ex ∷ exs) (str "SecRuleRemoveByTag \"" ++ (ex.value ++ (str "\"\n" ++ rest)))
  remove_target_by_id :
      {n : ℕ} {ex : Exclusion} {exs : List Exclusion} {rest : Bytes}
      → ex.type ≡ str "id"
      → IsText is_digit ex.value
      → IsText is_tag_byte ex.param
      → Directives (n + 1) exs rest
      → Directives n (ex ∷ exs) (
          str "SecRule ARGS:"
          ++ (ex.param
              ++ (str " \"@unconditionalMatch\" \"id:"
                  ++ (decimal_text n
                      ++ (str ",phase:2,pass,nolog,ctl:ruleRemoveById="
                          ++ (ex.value ++ (str "\"\n" ++ rest)))))))
  remove_target_by_tag :
      {n : ℕ} {ex : Exclusion} {exs : List Exclusion} {rest : Bytes}
      → ex.type ≡ str "tag"
      → IsText is_tag_byte ex.value
      → IsText is_tag_byte ex.param
      → Directives (n + 1) exs rest
      → Directives n (ex ∷ exs) (
          str "SecRule ARGS:"
          ++ (ex.param
              ++ (str " \"@unconditionalMatch\" \"id:"
                  ++ (decimal_text n
                      ++ (str ",phase:2,pass,nolog,ctl:ruleRemoveByTag="
                          ++ (ex.value ++ (str "\"\n" ++ rest)))))))

no_id : (ex : Exclusion) → ex.type ≡ exclude_by_tag → beq ex.type exclude_by_id ≡ false
no_id ex by_tag = elim (Bool-cases (beq ex.type exclude_by_id)) [
  | inl e ↦ absurd (types_apart (sym ((beq_iff ex.type exclude_by_id).0 e) ∙ by_tag))
  | inr e ↦ e
]

filled_param :
    (ex : Exclusion) → IsExclusion ex → beq ex.param [] ≡ false → IsText is_tag_byte ex.param
filled_param ex valid filled = elim valid.param [
  | inl e ↦ absurd (false≢true (sym filled ∙ (beq_iff ex.param []).1 e))
  | inr text ↦ text
]

-- The rows of a valid list are its directives.
pub render_rows-Directives :
    (n : ℕ) (exs : List Exclusion)
    → All IsExclusion exs
    → Directives n exs (render_rows (rows_from n exs) (str "\n"))
unfolding rows_from render_rows render_row
render_rows-Directives n [] valid = none_left n
render_rows-Directives n (ex ∷ exs) valid = elim (Bool-cases (beq ex.param [])) [
  | inl bare ↦
      let no_param = (beq_iff ex.param []).0 bare in
      elim valid.0.value [
        | inl by_id ↦
            let is_id = (beq_iff ex.type exclude_by_id).1 by_id.0 in
            rw (bare, is_id, rows_from, render_rows, render_row)
              (remove_id by_id.0 by_id.1 no_param (render_rows-Directives n exs valid.1))
        | inr by_tag ↦
            let is_tag = (beq_iff ex.type exclude_by_tag).1 by_tag.0 in
            rw (bare, no_id ex by_tag.0, is_tag, rows_from, render_rows, render_row)
              (remove_tag by_tag.0 by_tag.1 no_param (render_rows-Directives n exs valid.1))
      ]
  | inr filled ↦
      let param = filled_param ex valid.0 filled in
      elim valid.0.value [
        | inl by_id ↦
            let is_id = (beq_iff ex.type exclude_by_id).1 by_id.0 in
            rw (filled, is_id, rows_from, render_rows, render_row)
              (remove_target_by_id by_id.0 by_id.1 param
                (render_rows-Directives (n + 1) exs valid.1))
        | inr by_tag ↦
            let is_tag = (beq_iff ex.type exclude_by_tag).1 by_tag.0 in
            rw (filled, no_id ex by_tag.0, is_tag, rows_from, render_rows, render_row)
              (remove_target_by_tag by_tag.0 by_tag.1 param
                (render_rows-Directives (n + 1) exs valid.1))
      ]
]
