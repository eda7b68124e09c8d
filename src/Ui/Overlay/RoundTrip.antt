-- ===== src/Ui/Overlay/RoundTrip.antt =====
-- Overlays that internal/waf/exclusions.go generates and internal/ui/overlay.go reads.
use caddy_waf_ui.Prelude.{
  ℕ, ◌+◌, ◌≡◌, inl, inr, refl, sym, ap, ◌∙◌, false, some, List, [], ◌∷◌, ◌++◌, All, append_assoc,
  append-nil, arith, if◌then◌else◌, Option-cases, map,
}
use caddy_waf_ui.Text.{Bytes, str, beq, split, trim_space, is_digit}
use caddy_waf_ui.Text.Pattern.{match_line, strip}
use caddy_waf_ui.Text.Trim.{Free, trim_space-Tight}
use caddy_waf_ui.Errors.{ok}
use caddy_waf_ui.Domain.Model.{Site}
use caddy_waf_ui.Domain.Overlay.{header}
use caddy_waf_ui.Waf.Mode.{managed_note}
use caddy_waf_ui.Waf.Exclusions.{
  Exclusion, ExclusionRow, exclude_by_id, exclude_by_tag, is_tag_byte, decimal_text, targeted,
  render_row, render_rows, rows_from, body, dedupe_exclusions, validate_exclusions,
  generate_exclusions, id_base,
}
use caddy_waf_ui.Waf.Exclusions.Valid.{IsText, IsExclusion, validate_exclusions_iff}
use caddy_waf_ui.Waf.Exclusions.Unique.{dedupe_exclusions-All, rows_from-All}
use caddy_waf_ui.Ui.Overlay.{exclusion_of, exclusions_of, parse_exclusions_overlay}
use caddy_waf_ui.Ui.Overlay.Lines.{
  literal-Free, OneLine, joined, fixed, note_text, header_text, header_text-Free, head_lines,
  parse_exclusions_overlay-line, parse_exclusions_overlay-comment,
}
use caddy_waf_ui.Ui.Overlay.Rows.{
  url_line, tag_line, target_text, url_line-exclusion_of, tag_line-exclusion_of, by_id-exclusion_of,
  by_tag-exclusion_of, url_line-Tight, tag_line-Tight, target_text-Tight, digits-IsText, text-Free,
  decimal_text-IsText,
}

tag_text : (s : Bytes) → IsText is_tag_byte s → OneLine s
tag_text s h = record { free = text-Free s h }

OneLine-target_text :
    (param control value : Bytes) (id : ℕ)
    → IsText is_tag_byte param
    → OneLine control
    → IsText is_tag_byte value
    → OneLine (target_text param id control value)
unfolding target_text
OneLine-target_text param control value id p c h = joined (fixed (str "SecRule ARGS:") refl) (
    joined (tag_text param p) (
      joined (fixed (str " \"@unconditionalMatch\" \"id:") refl) (
        joined (tag_text (decimal_text id) (digits-IsText _ (decimal_text-IsText id))) (
          joined (fixed (str ",phase:2,pass,nolog,ctl:") refl)
            (joined c (joined (tag_text value h) (fixed (str "\"") refl)))))))

-- A row is one line, which reads back as its exclusion.
record ReadBack (row : ExclusionRow) : Type 0 where
  line : Bytes
  one_line : OneLine line
  read : exclusion_of (trim_space line) ≡ some row.exclusion
  rendered : (rest : Bytes) → render_row row rest ≡ line ++ (10 ∷ rest)

targeted-target_text :
    (control : Bytes) (row : ExclusionRow) (rest : Bytes)
    → targeted control row rest
      ≡ target_text row.exclusion.param row.id control row.exclusion.value ++ (10 ∷ rest)
unfolding target_text
targeted-target_text control row rest = simp append_assoc

same_exclusion :
    (ex : Exclusion) {type param : Bytes}
    → ex.type ≡ type
    → ex.param ≡ param
    → some (record { type = type; value = ex.value; param = param }) ≡ some ex
same_exclusion ex t p = λ i. some (record { type = sym t i; value = ex.value; param = sym p i })

url_row :
    (row : ExclusionRow)
    → row.exclusion.type ≡ exclude_by_id
    → row.exclusion.param ≡ []
    → IsText is_digit row.exclusion.value
    → ReadBack row
unfolding render_row beq url_line
url_row row type param h = record {
  line = url_line row.exclusion.value;
  one_line =
      joined (fixed (str "SecRuleRemoveById ") refl)
        (tag_text row.exclusion.value (digits-IsText _ h));
  read =
      ap exclusion_of (trim_space-Tight _ (url_line-Tight _ (digits-IsText _ h)))
      ∙ url_line-exclusion_of _ h
      ∙ same_exclusion row.exclusion type param;
  rendered = λ rest. rw (type, param) (simp append_assoc);
}

tag_row :
    (row : ExclusionRow)
    → row.exclusion.type ≡ exclude_by_tag
    → row.exclusion.param ≡ []
    → IsText is_tag_byte row.exclusion.value
    → ReadBack row
unfolding render_row beq tag_line
tag_row row type param h = record {
  line = tag_line row.exclusion.value;
  one_line =
      joined (fixed (str "SecRuleRemoveByTag \"") refl)
        (joined (tag_text row.exclusion.value h) (fixed (str "\"") refl));
  read =
      ap exclusion_of (trim_space-Tight _ (tag_line-Tight row.exclusion.value))
      ∙ tag_line-exclusion_of _ h
      ∙ same_exclusion row.exclusion type param;
  rendered = λ rest. rw (type, param) (simp append_assoc);
}

filled_param : (s : Bytes) → IsText is_tag_byte s → beq s [] ≡ false
unfolding beq
filled_param [] h = absurd (h.filled refl)
filled_param (c ∷ s) h = refl

row-ReadBack : (row : ExclusionRow) → IsExclusion row.exclusion → ReadBack row
unfolding render_row beq
row-ReadBack row valid = elim valid.param [
  | inl bare ↦ elim valid.value [
    | inl by_id ↦ url_row row by_id.0 bare by_id.1
    | inr by_tag ↦ tag_row row by_tag.0 bare by_tag.1
  ]
  | inr param ↦
      let shown = filled_param row.exclusion.param param in
      elim valid.value [
        | inl by_id ↦ record {
          line = target_text row.exclusion.param row.id (str "ruleRemoveById=") row.exclusion.value;
          one_line =
              OneLine-target_text _ (str "ruleRemoveById=") _ row.id param
                (fixed (str "ruleRemoveById=") refl) (digits-IsText _ by_id.1);
          read =
              ap exclusion_of (trim_space-Tight _ (target_text-Tight _ _ _ row.id))
              ∙ by_id-exclusion_of _ _ row.id param by_id.1
              ∙ same_exclusion row.exclusion by_id.0 refl;
          rendered =
              λ rest. rw (by_id.0, shown) (targeted-target_text (str "ruleRemoveById=") row rest);
        }
        | inr by_tag ↦ record {
          line =
              target_text row.exclusion.param row.id (str "ruleRemoveByTag=") row.exclusion.value;
          one_line =
              OneLine-target_text _ (str "ruleRemoveByTag=") _ row.id param
                (fixed (str "ruleRemoveByTag=") refl) by_tag.1;
          read =
              ap exclusion_of (trim_space-Tight _ (target_text-Tight _ _ _ row.id))
              ∙ by_tag-exclusion_of _ _ row.id param by_tag.1
              ∙ same_exclusion row.exclusion by_tag.0 refl;
          rendered =
              λ rest. rw (by_tag.0, shown) (targeted-target_text (str "ruleRemoveByTag=") row rest);
        }
      ]
]

abbrev exclusions_in : List ExclusionRow → List Exclusion
exclusions_in = map (λ row. row.exclusion)

rows_from-exclusions : (next : ℕ) (exs : List Exclusion) → exclusions_in (rows_from next exs) ≡ exs
unfolding rows_from
rows_from-exclusions next [] = refl
rows_from-exclusions next (ex ∷ exs) =
    ap (λ t. ex ∷ t) (rows_from-exclusions (if beq ex.param [] then next else next + 1) exs)

parse-render_rows :
    (rows : List ExclusionRow) (rest : Bytes)
    → All (λ row. IsExclusion row.exclusion) rows
    → parse_exclusions_overlay (render_rows rows rest)
      ≡ exclusions_in rows ++ parse_exclusions_overlay rest
unfolding render_rows
parse-render_rows [] rest valid = refl
parse-render_rows (row ∷ rows) rest valid =
    let back = row-ReadBack row valid.0 in
    ap parse_exclusions_overlay (back.rendered (render_rows rows rest))
    ∙ parse_exclusions_overlay-line back.line (render_rows rows rest) back.one_line.free
    ∙ rw back.read (ap (λ t. row.exclusion ∷ t) (parse-render_rows rows rest valid.1))

parse-body :
    (rows : List ExclusionRow)
    → All (λ row. IsExclusion row.exclusion) rows
    → parse_exclusions_overlay (body rows) ≡ exclusions_in rows
unfolding parse_exclusions_overlay exclusions_of split match_line trim_space
parse-body [] valid =
    parse_exclusions_overlay-comment (str " No exclusions configured for this domain.") (str "\n")
      (literal-Free (str " No exclusions configured for this domain.") refl)
parse-body (row ∷ rows) valid = parse-render_rows (row ∷ rows) (str "\n") valid ∙ append-nil _

parse-empty_line :
    (rest : Bytes) → parse_exclusions_overlay (10 ∷ rest) ≡ parse_exclusions_overlay rest
unfolding exclusion_of match_line strip trim_space
parse-empty_line rest = parse_exclusions_overlay-line [] rest tt

parse-head :
    (domain ts rest : Bytes)
    → Free 10 domain
    → Free 10 ts
    → parse_exclusions_overlay (managed_note ++ (header domain [] ts ++ (str "\n\n" ++ rest)))
      ≡ parse_exclusions_overlay rest
parse-head domain ts rest d t =
    ap parse_exclusions_overlay (head_lines domain ts rest)
    ∙ parse_exclusions_overlay-comment note_text
        ((b'#' ∷ header_text domain ts) ++ (10 ∷ (10 ∷ rest))) (literal-Free note_text refl)
    ∙ parse_exclusions_overlay-comment (header_text domain ts) (10 ∷ rest)
        (header_text-Free domain ts d t)
    ∙ parse-empty_line rest

-- An overlay that was generated for a list reads back as that list without repetitions, where the
-- domain and the time hold no newline.
pub parse_exclusions_overlay-generate_exclusions :
    (site : Site) (exs : List Exclusion) (ts text : Bytes)
    → Free 10 site.domain
    → Free 10 ts
    → generate_exclusions site exs ts ≡ ok text
    → parse_exclusions_overlay text ≡ dedupe_exclusions exs
unfolding generate_exclusions
parse_exclusions_overlay-generate_exclusions site exs ts text d t made =
    elim (Option-cases (validate_exclusions exs)) [
      | inr (e, fault) ↦ absurd (ground (arith, fault, made))
      | inl accepted ↦
          let valid =
            dedupe_exclusions-All IsExclusion exs ((validate_exclusions_iff exs).0 accepted) in
          let rows = rows_from id_base (dedupe_exclusions exs) in
          let same : managed_note ++ (header site.domain [] ts ++ (str "\n\n" ++ body rows))
              ≡ text =
            ground (arith, accepted, made) in
          ap parse_exclusions_overlay (sym same)
          ∙ parse-head site.domain ts (body rows) d t
          ∙ parse-body rows (rows_from-All IsExclusion id_base (dedupe_exclusions exs) valid)
          ∙ rows_from-exclusions id_base (dedupe_exclusions exs)
    ]
