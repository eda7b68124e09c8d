-- ===== src/Domain/Header/RoundTrip.antt =====
-- Headers that `Header` of internal/domain/overlay.go writes and `ParseHeader` reads.
use caddy_waf_ui.Prelude.{
  ◌≡◌, ◌≢◌, ◌⊎◌, inl, inr, refl, sym, ap, ◌∙◌, true, false, some, [], ◌∷◌, ◌++◌, All, append_assoc,
  if◌then◌else◌,
}
use caddy_waf_ui.Text.{
  Bytes, str, beq, is_space, split, cut, trim_space, trim_by, to_lower, lower_byte,
}
use caddy_waf_ui.Text.Laws.{has_prefix-append}
use caddy_waf_ui.Text.Trim.{
  Tight, trim_space-Tight, trim_space-before, trim_space-after, trim_space-around, Free,
  Free-append, cut-first, split-first, split-free, KeptEnd, field_end, KeptEnd-append, Tight-cons,
}
use caddy_waf_ui.Domain.Model.{WafMode}
use caddy_waf_ui.Domain.Overlay.{header_prefix, header}
use caddy_waf_ui.Domain.Header.{
  Clock, OverlayHeader, read_pair, read_segment, read_segments, named, parse_parts, parse_trimmed,
  parse_header, with_updated,
}

-- A text of one byte or more without spaces and bars, as domains, modes and times are.
pub record IsField (s : Bytes) : Type 0 where
  pub filled : s ≢ []
  pub no_space : All (λ c. is_space c ≡ false) s
  pub no_bar : Free 124 s

KeptEnd-field : (s : Bytes) → IsField s → KeptEnd s
KeptEnd-field [] h = absurd (h.filled refl)
KeptEnd-field (c ∷ s) h = field_end c s h.no_space

-- A field, with a text behind it that ends with one.
Tight-field : (s rest : Bytes) → IsField s → KeptEnd (s ++ rest) → Tight (s ++ rest)
Tight-field [] rest h end = absurd (h.filled refl)
Tight-field (c ∷ s) rest h end = Tight-cons c (s ++ rest) h.no_space.0 end

field-Tight : (s : Bytes) → IsField s → Tight s
field-Tight [] h = absurd (h.filled refl)
field-Tight (c ∷ s) h = Tight-cons c s h.no_space.0 (field_end c s h.no_space)

-- The segments of the mode and of the time.
mode_pair :
    (clock : Clock) (h : OverlayHeader) (value : Bytes)
    → read_pair clock h (cut 58 (str "mode:" ++ value))
      ≡ record h { mode = trim_space value; has_mode = true }
unfolding read_pair cut trim_space trim_by is_space to_lower lower_byte beq
mode_pair clock h value = refl

updated_pair :
    (clock : Clock) (h : OverlayHeader) (value : Bytes)
    → read_pair clock h (cut 58 (str "updated:" ++ value)) ≡ with_updated clock h (trim_space value)
unfolding read_pair cut trim_space trim_by is_space to_lower lower_byte beq
updated_pair clock h value = refl

segment_mode :
    (clock : Clock) (h : OverlayHeader) (mode : Bytes)
    → IsField mode
    → read_segment clock h (32 ∷ ((str "mode: " ++ mode) ++ (32 ∷ [])))
      ≡ record h { mode = mode; has_mode = true }
unfolding read_segment is_space
segment_mode clock h mode field =
    let whole = str "mode: " ++ mode in
    let tight =
      Tight-cons b'm' (str "ode: " ++ mode) refl
        (KeptEnd-append (str "mode: ") mode (KeptEnd-field mode field)) in
    ap (λ t. read_pair clock h (cut 58 t)) (trim_space-around whole tight)
    ∙ mode_pair clock h (32 ∷ mode)
    ∙ ap (λ m. record h { mode = m; has_mode = true })
        (trim_space-before mode (field-Tight mode field))

segment_updated :
    (clock : Clock) (h : OverlayHeader) (ts : Bytes)
    → IsField ts
    → read_segment clock h (32 ∷ (str "updated: " ++ ts)) ≡ with_updated clock h ts
unfolding read_segment is_space
segment_updated clock h ts field =
    let whole = str "updated: " ++ ts in
    let tight =
      Tight-cons b'u' (str "pdated: " ++ ts) refl
        (KeptEnd-append (str "updated: ") ts (KeptEnd-field ts field)) in
    ap (λ t. read_pair clock h (cut 58 t)) (trim_space-before whole tight)
    ∙ updated_pair clock h (32 ∷ ts)
    ∙ ap (with_updated clock h) (trim_space-before ts (field-Tight ts field))

parse_behind :
    (clock : Clock) (s : Bytes)
    → parse_trimmed clock (header_prefix ++ s)
      ≡ parse_parts clock (trim_space (cut 124 (trim_space s)).0) (cut 124 (trim_space s)).1
unfolding parse_trimmed
parse_behind clock s = rw (has_prefix-append header_prefix s, parse_trimmed) refl

named_parts :
    (clock : Clock) (domain rest : Bytes)
    → IsField domain
    → parse_parts clock domain (some rest)
      ≡ some (read_segments clock (named domain) (split rest 124))
unfolding parse_parts beq
named_parts clock [] rest field = absurd (field.filled refl)
named_parts clock (c ∷ cs) rest field = refl

-- A header line with these segments behind the domain.
parse_fields :
    (clock : Clock) (domain rest : Bytes)
    → IsField domain
    → KeptEnd rest
    → parse_header clock (header_prefix ++ (32 ∷ (domain ++ (32 ∷ (124 ∷ rest)))))
      ≡ some (read_segments clock (named domain) (split rest 124))
unfolding parse_header is_space
parse_fields clock domain rest field end =
    let behind = domain ++ (32 ∷ (124 ∷ rest)) in
    let end_behind : KeptEnd behind =
      KeptEnd-append domain (32 ∷ (124 ∷ rest)) (KeptEnd-append (str " |") rest end) in
    let parts : cut 124 behind ≡ (domain ++ (32 ∷ []), some rest) =
      ap (cut 124) (sym (append_assoc domain (32 ∷ []) (124 ∷ rest)))
      ∙ cut-first 124 (domain ++ (32 ∷ [])) rest refl
          (Free-append 124 domain (32 ∷ []) field.no_bar (refl, tt)) in
    ap (parse_trimmed clock) (
      trim_space-Tight (header_prefix ++ (32 ∷ behind)) (
        Tight-cons b'#' (str " domain: " ++ behind) refl
          (KeptEnd-append (str "# domain: ") behind end_behind)))
    ∙ parse_behind clock (32 ∷ behind)
    ∙ ap (λ s. parse_parts clock (trim_space (cut 124 s).0) (cut 124 s).1)
        (trim_space-before behind (Tight-field domain (32 ∷ (124 ∷ rest)) field end_behind))
    ∙ ap (λ p. parse_parts clock (trim_space p.0) p.1) parts
    ∙ ap (λ d. parse_parts clock d (some rest)) (trim_space-after domain (field-Tight domain field))
    ∙ named_parts clock domain rest field

-- What a header of these fields is read as, with the time as the clock reads it.
abbrev pub read_back : Clock → Bytes → WafMode → Bytes → OverlayHeader
read_back clock domain mode ts =
    with_updated clock
      (if beq mode [] then named domain else record (named domain) { mode = mode; has_mode = true })
      ts

split_fields :
    (clock : Clock) (domain mode ts : Bytes)
    → IsField mode
    → IsField ts
    → read_segments clock
        (named domain)
        (split (str " mode: " ++ (mode ++ (str " | updated: " ++ ts))) 124)
      ≡ with_updated clock (record (named domain) { mode = mode; has_mode = true }) ts
unfolding read_segments
split_fields clock domain mode ts field_mode field_ts =
    let first = 32 ∷ ((str "mode: " ++ mode) ++ (32 ∷ [])) in
    let second = 32 ∷ (str "updated: " ++ ts) in
    let text : str " mode: " ++ (mode ++ (str " | updated: " ++ ts)) ≡ first ++ (124 ∷ second) =
      ap (λ t. str " mode: " ++ t) (sym (append_assoc mode (32 ∷ []) (124 ∷ second))) in
    let free_first =
      Free-append 124 (str " mode: ") (mode ++ (32 ∷ []))
        (refl, (refl, (refl, (refl, (refl, (refl, (refl, tt)))))))
        (Free-append 124 mode (32 ∷ []) field_mode.no_bar (refl, tt)) in
    let free_second =
      Free-append 124 (str " updated: ") ts
        (refl, (refl, (refl, (refl, (refl, (refl, (refl, (refl, (refl, (refl, tt))))))))))
        field_ts.no_bar in
    ap (λ t. read_segments clock (named domain) (split t 124)) text
    ∙ ap (read_segments clock (named domain)) (
        split-first 124 first second refl free_first
        ∙ ap (λ t. first ∷ t) (split-free 124 second free_second))
    ∙ ap (λ h. read_segment clock h second) (segment_mode clock (named domain) mode field_mode)
    ∙ segment_updated clock (record (named domain) { mode = mode; has_mode = true }) ts field_ts

split_time :
    (clock : Clock) (domain ts : Bytes)
    → IsField ts
    → read_segments clock (named domain) (split (str " updated: " ++ ts) 124)
      ≡ with_updated clock (named domain) ts
unfolding read_segments
split_time clock domain ts field_ts =
    let second = 32 ∷ (str "updated: " ++ ts) in
    let free_second =
      Free-append 124 (str " updated: ") ts
        (refl, (refl, (refl, (refl, (refl, (refl, (refl, (refl, (refl, (refl, tt))))))))))
        field_ts.no_bar in
    ap (read_segments clock (named domain)) (split-free 124 second free_second)
    ∙ segment_updated clock (named domain) ts field_ts

-- Reading a written header gives back the domain, the mode, if one was written, and the time as the
-- clock reads it, where these are texts without spaces and bars.
pub parse_header-header :
    (clock : Clock) (domain mode ts : Bytes)
    → IsField domain
    → (mode ≡ []) ⊎ IsField mode
    → IsField ts
    → parse_header clock (header domain mode ts) ≡ some (read_back clock domain mode ts)
unfolding header beq
parse_header-header clock domain [] ts field_domain field_mode field_ts =
    parse_fields clock domain (str " updated: " ++ ts) field_domain
      (KeptEnd-append (str " updated: ") ts (KeptEnd-field ts field_ts))
    ∙ ap some (split_time clock domain ts field_ts)
parse_header-header clock domain (c ∷ cs) ts field_domain (inl empty) field_ts = absurd (cc)
parse_header-header clock domain (c ∷ cs) ts field_domain (inr field_mode) field_ts =
    parse_fields clock domain (str " mode: " ++ ((c ∷ cs) ++ (str " | updated: " ++ ts)))
      field_domain
      (KeptEnd-append (str " mode: ") ((c ∷ cs) ++ (str " | updated: " ++ ts)) (
        KeptEnd-append (c ∷ cs) (str " | updated: " ++ ts)
          (KeptEnd-append (str " | updated: ") ts (KeptEnd-field ts field_ts))))
    ∙ ap some (split_fields clock domain (c ∷ cs) ts field_mode field_ts)
