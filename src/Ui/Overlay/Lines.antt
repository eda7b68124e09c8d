-- ===== src/Ui/Overlay/Lines.antt =====
-- The overlays of internal/ui/overlay.go, line by line.
use caddy_waf_ui.Prelude.{
  ◌≡◌, refl, ap, ◌∙◌, true, none, [], ◌∷◌, ◌++◌, ◌==◌, append_assoc, arith, all, not,
}
use caddy_waf_ui.Text.{Bytes, str, beq, trim_space, is_space}
use caddy_waf_ui.Text.Trim.{Free, Free-append, split-first, trim_space-first}
use caddy_waf_ui.Text.Pattern.{match_line, strip}
use caddy_waf_ui.Domain.Overlay.{header}
use caddy_waf_ui.Waf.Mode.{managed_note}
use caddy_waf_ui.Ui.Overlay.{exclusion_of, exclusions_of, appended, parse_exclusions_overlay}

pub literal-Free : (s : Bytes) → all (λ c. not (c == 10)) s ≡ true → Free 10 s
literal-Free [] h = tt
literal-Free (c ∷ s) h = (ground (arith, h), literal-Free s (ground (arith, h)))

-- The text holds no newline.
pub record OneLine (s : Bytes) : Type 0 where
  pub free : Free 10 s

pub joined : {s t : Bytes} → OneLine s → OneLine t → OneLine (s ++ t)
joined {s} {t} h k = record { free = Free-append 10 s t h.free k.free }

pub fixed : (s : Bytes) → all (λ c. not (c == 10)) s ≡ true → OneLine s
fixed s h = record { free = literal-Free s h }

-- The head of an overlay: two comments and an empty line.
abbrev pub note_text : Bytes
note_text = str " Caddy WAF UI managed - do not edit manually"

abbrev pub header_text : Bytes → Bytes → Bytes
header_text domain ts = str " domain: " ++ (domain ++ (str " | updated: " ++ ts))

pub header_text-Free :
    (domain ts : Bytes) → Free 10 domain → Free 10 ts → Free 10 (header_text domain ts)
header_text-Free domain ts d t =
    let whole : OneLine (header_text domain ts) = joined (fixed (str " domain: ") refl) (
      joined (record { free = d })
        (joined (fixed (str " | updated: ") refl) (record { free = t }))) in
    whole.free

pub head_lines :
    (domain ts rest : Bytes)
    → managed_note ++ (header domain [] ts ++ (str "\n\n" ++ rest))
      ≡ (b'#' ∷ note_text) ++ (10 ∷ ((b'#' ∷ header_text domain ts) ++ (10 ∷ (10 ∷ rest))))
unfolding header beq
head_lines domain ts rest = simp append_assoc

-- One line of an overlay, read first.
pub parse_exclusions_overlay-line :
    (line rest : Bytes)
    → Free 10 line
    → parse_exclusions_overlay (line ++ (10 ∷ rest))
      ≡ appended (exclusion_of (trim_space line)) (parse_exclusions_overlay rest)
unfolding parse_exclusions_overlay exclusions_of
parse_exclusions_overlay-line line rest free = ap exclusions_of (split-first 10 line rest refl free)

comment_ignored : (s : Bytes) → exclusion_of (b'#' ∷ s) ≡ none
unfolding exclusion_of match_line strip
comment_ignored s = refl

-- A line that starts like a comment brings in nothing.
pub parse_exclusions_overlay-comment :
    (line rest : Bytes)
    → Free 10 line
    → parse_exclusions_overlay ((b'#' ∷ line) ++ (10 ∷ rest)) ≡ parse_exclusions_overlay rest
unfolding is_space
parse_exclusions_overlay-comment line rest free =
    let (t, e) = trim_space-first b'#' line refl in
    parse_exclusions_overlay-line (b'#' ∷ line) rest (refl, free)
    ∙ ap (λ s. appended (exclusion_of s) (parse_exclusions_overlay rest)) e
    ∙ ap (λ o. appended o (parse_exclusions_overlay rest)) (comment_ignored t)
