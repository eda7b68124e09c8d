-- ===== src/Logs/Tail.antt =====
-- `tailWindow` of internal/logs/reader.go, for a file that does not change while it is read.
use caddy_waf_ui.Prelude.{
  ℕ, ◌-◌, ◌≤◌, ◌≡◌, ◌⊎◌, inl, inr, refl, sym, ap, ◌∙◌, Option, none, some, [], ◌∷◌, ◌++◌, arith,
  leb, ◌==◌, if◌then◌else◌, length, take, drop, length-drop, Bool-cases, leb→le, ==_iff,
  take-append-drop, append_assoc,
}
use caddy_waf_ui.Text.{Bytes}
use caddy_waf_ui.Text.Trim.{Free}

-- `maxTailBytes`, 2 MiB.
abbrev pub max_tail_bytes : ℕ
max_tail_bytes = 2097152

-- What stands after the first newline.
unfoldable pub after_newline : Bytes → Option Bytes
after_newline [] = none
after_newline (c ∷ cs) = let rest = after_newline cs in if c == 10 then some cs else rest

cut_line : Bytes → Bytes
unfolding after_newline
cut_line buf = elim (after_newline buf) [ none ↦ buf | some rest ↦ rest ]

unfoldable pub tail_of : ℕ → Bytes → Bytes
unfolding cut_line
tail_of limit file =
    if leb (length file) limit then file else cut_line (drop (length file - limit) file)

unfoldable pub tail_window : Bytes → Bytes
unfolding tail_of
tail_window = tail_of max_tail_bytes

-- A prefix that is cut off, which is empty or ends a line.
pub data StartsLine : Bytes → Type 0 where
  at_start : StartsLine []
  after_line : (cut : Bytes) → StartsLine (cut ++ (10 ∷ []))

-- The window on a file: what is read ends the file and is no longer than the limit; it starts where
-- a line starts, unless it is the last `limit` bytes and has no newline.
pub record IsWindow (limit : ℕ) (file window : Bytes) : Type 0 where
  pub cut : Bytes
  pub whole : cut ++ window ≡ file
  pub small : length window ≤ limit
  pub line : StartsLine cut ⊎ ((length window ≡ limit) × Free 10 window)

data CutCases (buf : Bytes) : Type 0 where
  cut_at :
      (before rest : Bytes)
      → after_newline buf ≡ some rest
      → (before ++ (10 ∷ [])) ++ rest ≡ buf
      → length rest ≤ length buf
      → CutCases buf
  no_line : after_newline buf ≡ none → Free 10 buf → CutCases buf

cut_cases : (buf : Bytes) → CutCases buf
unfolding after_newline
cut_cases [] = no_line refl tt
cut_cases (c ∷ cs) = elim (Bool-cases (c == 10)) [
  | inl e ↦
      cut_at [] cs (ground (arith, e)) (ap (λ t. t ∷ cs) (sym ((==_iff c 10).0 e))) (omega arith)
  | inr e ↦ elim (cut_cases cs) [
    | cut_at before rest found whole small ↦
        cut_at (c ∷ before) rest (ground (arith, e, found)) (ap (λ t. c ∷ t) whole)
          (omega (arith, small))
    | no_line found free ↦ no_line (ground (arith, e, found)) (e, free)
  ]
]

-- What is read is a window on the file: it ends the file, is within the limit, and starts with a
-- line, unless there is no newline among the last bytes.
pub tail_of-IsWindow : (limit : ℕ) (file : Bytes) → IsWindow limit file (tail_of limit file)
unfolding tail_of cut_line
tail_of-IsWindow limit file = elim (Bool-cases (leb (length file) limit)) [
  | inl fits ↦
      rw (fits, tail_of)
        record {
          cut = [];
          whole = refl;
          small = leb→le (length file) limit fits;
          line = inl at_start;
        }
  | inr long ↦
      let skip = length file - limit in
      let buf = drop skip file in
      elim (cut_cases buf) [
        | cut_at before rest found whole small ↦
            rw (long, found, tail_of, cut_line)
              record {
                cut = (take skip file ++ before) ++ (10 ∷ []);
                whole =
                    ap (λ t. t ++ rest) (append_assoc (take skip file) before (10 ∷ []))
                    ∙ append_assoc (take skip file) (before ++ (10 ∷ [])) rest
                    ∙ ap (λ t. take skip file ++ t) whole
                    ∙ take-append-drop skip file;
                small = omega (arith, small, length-drop skip file);
                line = inl (after_line (take skip file ++ before));
              }
        | no_line found free ↦
            rw (long, found, tail_of, cut_line)
              record {
                cut = take skip file;
                whole = take-append-drop skip file;
                small = ground (arith, length-drop skip file);
                line = inr (ground (arith, length-drop skip file), free);
              }
      ]
]
