-- ===== src/Waf/Exclusions/Generated.antt =====
-- `GenerateExclusions` of internal/waf/exclusions.go as a whole.
use caddy_waf_ui.Prelude.{
  ℕ, zero, suc, ◌+◌, ◌≡◌, refl, ap, ◌∙◌, List, [], ◌∷◌, ◌++◌, All, length, Option-cases, inl, inr,
}
use caddy_waf_ui.Text.{Bytes, str}
use caddy_waf_ui.Errors.{Error, Result, ok, err}
use caddy_waf_ui.Domain.Model.{Site}
use caddy_waf_ui.Domain.Overlay.{header}
use caddy_waf_ui.Waf.Exclusions.{
  Exclusion, ExclusionRow, id_base, validate_exclusions, dedupe_exclusions, rows_from, body,
  generate_exclusions,
}
use caddy_waf_ui.Waf.Exclusions.Valid.{IsExclusion, validate_exclusions_iff}
use caddy_waf_ui.Waf.Exclusions.Unique.{dedupe_exclusions-All, rows_from-All, length-rows_from}
use caddy_waf_ui.Waf.Exclusions.Lines.{lines, render_rows-lines}
use caddy_waf_ui.Waf.Exclusions.Directives.{Directives, render_rows-Directives}

-- The lines below the head, for this many exclusions.
abbrev pub body_lines : ℕ → ℕ
body_lines zero = 2
body_lines (suc n) = suc n + 1

-- The text below the head: the directives, or a note if there are none.
pub data Below : List Exclusion → Bytes → Type 0 where
  note : Below [] (str "# No exclusions configured for this domain.\n\n")
  directives :
      {ex : Exclusion} {exs : List Exclusion} {text : Bytes}
      → Directives 9000001 (ex ∷ exs) text
      → Below (ex ∷ exs) text

body-Below : (exs : List Exclusion) → All IsExclusion exs → Below exs (body (rows_from id_base exs))
unfolding rows_from
body-Below [] valid = note
body-Below (ex ∷ exs) valid = directives (render_rows-Directives id_base (ex ∷ exs) valid)

-- The outcome for a list: an error, or an overlay with a head, and below it the directives of the
-- distinct exclusions, with one line for each.
pub data Overlay (site : Site) (exs : List Exclusion) (ts : Bytes) : Result Bytes → Type 0 where
  refused : (e : Error) → ¬ All IsExclusion exs → Overlay site exs ts (err e)
  made :
      (below : Bytes)
      → All IsExclusion exs
      → Below (dedupe_exclusions exs) below
      → lines below ≡ body_lines (length (dedupe_exclusions exs))
      → Overlay site exs ts (
          ok (
            str "# Caddy WAF UI managed - do not edit manually\n"
            ++ (header site.domain [] ts ++ (str "\n\n" ++ below))))

lines-body :
    (rows : List ExclusionRow)
    → All (λ row. IsExclusion row.exclusion) rows
    → lines (body rows) ≡ body_lines (length rows)
unfolding lines
lines-body [] valid = refl
lines-body (row ∷ rows) valid = render_rows-lines (row ∷ rows) (str "\n") valid

-- `GenerateExclusions` fails exactly for a list that is not valid. For a valid one the overlay has a
-- head, and below it exactly the directive of each distinct exclusion and an empty line, or a note if
-- there is none. A directive holds a number or a tag as its value, a text like a tag as its parameter,
-- and ends the only line that it starts, so that no value brings in another directive.
pub generate_exclusions-Overlay :
    (site : Site) (exs : List Exclusion) (ts : Bytes)
    → Overlay site exs ts (generate_exclusions site exs ts)
unfolding generate_exclusions
generate_exclusions-Overlay site exs ts = elim (Option-cases (validate_exclusions exs)) [
  | inr (e, fault) ↦
      rw (fault, generate_exclusions)
        (refused e (λ valid. let fine = (validate_exclusions_iff exs).1 valid in absurd (cc)))
  | inl accepted ↦
      let valid = (validate_exclusions_iff exs).0 accepted in
      let unique = dedupe_exclusions exs in
      let fine = dedupe_exclusions-All IsExclusion exs valid in
      rw (accepted, generate_exclusions)
        (made (body (rows_from id_base unique)) valid (body-Below unique fine) (
          lines-body (rows_from id_base unique) (rows_from-All IsExclusion id_base unique fine)
          ∙ ap body_lines (length-rows_from id_base unique)))
]
