-- ===== src/Domain/Header.antt =====
-- `ParseHeader` of internal/domain/overlay.go and the scanner of internal/domain/scanner.go.
pub mod RoundTrip
use caddy_waf_ui.Prelude.{
  ℕ, Bool, true, false, not, ◌&&◌, ◌||◌, Option, none, some, List, [], ◌∷◌, drop, length,
  if◌then◌else◌,
}
use caddy_waf_ui.Text.{Bytes, str, beq, has_prefix, has_suffix, split, cut, to_lower, trim_space}
use caddy_waf_ui.Domain.Model.{WafMode, mode_on, mode_off, mode_detection_only, Site}
use caddy_waf_ui.Domain.Overlay.{header_prefix}

-- time.Parse with RFC 3339; the time is kept as its text.
abbrev pub Clock : Type 0
Clock = Bytes → Option Bytes

pub record OverlayHeader : Type 0 where
  pub domain : Bytes
  pub mode : WafMode
  pub updated : Bytes
  pub has_mode : Bool
  pub has_updated : Bool
  pub updated_raw : Bytes

abbrev pub with_updated : Clock → OverlayHeader → Bytes → OverlayHeader
with_updated clock h raw = elim (clock raw) [
  | some ts ↦ record h { updated_raw = raw; updated = ts; has_updated = true }
  | none ↦ record h { updated_raw = raw }
]

-- A key and a value, by the first colon; other segments are skipped.
unfoldable pub read_pair : Clock → OverlayHeader → Bytes × Option Bytes → OverlayHeader
unfolding trim_space to_lower beq
read_pair clock h (key, none) = h
read_pair clock h (key, some value) =
    let name = to_lower (trim_space key) in
    if beq name (str "mode")
    then record h { mode = trim_space value; has_mode = true }
    else if beq name (str "updated")
    then with_updated clock h (trim_space value)
    else h

-- One segment behind the domain.
unfoldable pub read_segment : Clock → OverlayHeader → Bytes → OverlayHeader
unfolding cut trim_space read_pair
read_segment clock h part = read_pair clock h (cut b':' (trim_space part))

unfoldable pub read_segments : Clock → OverlayHeader → List Bytes → OverlayHeader
unfolding read_segment
read_segments clock h [] = h
read_segments clock h (part ∷ parts) = read_segments clock (read_segment clock h part) parts

abbrev pub text_of : Option Bytes → Bytes
text_of none = []
text_of (some text) = text

abbrev pub named : Bytes → OverlayHeader
named name = record {
  domain = name;
  mode = [];
  updated = [];
  has_mode = false;
  has_updated = false;
  updated_raw = [];
}

-- The first segment is the domain, the others are pairs.
unfoldable pub parse_parts : Clock → Bytes → Option Bytes → Option OverlayHeader
unfolding read_segments
parse_parts clock name remaining =
    if beq name []
    then none
    else some (read_segments clock (named name) (split (text_of remaining) b'|'))

unfoldable pub parse_trimmed : Clock → Bytes → Option OverlayHeader
unfolding parse_parts
parse_trimmed clock line =
    let parts = cut b'|' (trim_space (drop (length header_prefix) line)) in
    if not (has_prefix line header_prefix)
    then none
    else parse_parts clock (trim_space parts.0) parts.1

-- `none` stands for both errors: no prefix, or no domain.
unfoldable pub parse_header : Clock → Bytes → Option OverlayHeader
unfolding parse_trimmed
parse_header clock line = parse_trimmed clock (trim_space line)

-- The first line that begins with the prefix, trimmed.
unfoldable pub header_line : List Bytes → Option Bytes
header_line [] = none
header_line (line ∷ lines) =
    let rest = header_line lines in
    if has_prefix (trim_space line) header_prefix then some (trim_space line) else rest

-- An unknown mode gives the default and the mark of a degraded site.
unfoldable pub site_of : OverlayHeader → Site
site_of h =
    let known = beq h.mode mode_on || (beq h.mode mode_off || beq h.mode mode_detection_only) in
    record {
      domain = h.domain;
      mode =
          if not h.has_mode
          then mode_detection_only
          else if known
          then h.mode
          else mode_detection_only;
      updated = if h.has_updated then h.updated else [];
      degraded = h.has_mode && not known;
    }

-- `parseSiteHeader` of a file's content.
unfoldable pub parse_site_header : Clock → Bytes → Option Site
unfolding header_line parse_header site_of
parse_site_header clock content = elim (header_line (split content 10)) [
  | none ↦ none
  | some line ↦ elim (parse_header clock line) [ none ↦ none | some h ↦ some (site_of h) ]
]
