-- ===== src/Text/Pattern.antt =====
-- The patterns of package regexp that read a line: literals and classes of bytes, one byte or more,
-- from the first byte of the line to the last. In every pattern that is built here no class holds
-- the byte that may follow it, so the greedy reading never has to back up.
use caddy_waf_ui.Prelude.{
  ℕ, ◌≡◌, ◌≢◌, refl, ap, Bool, true, false, ◌||◌, Option, none, some, List, [], ◌∷◌, ◌++◌, All,
  ◌==◌, if◌then◌else◌, arith,
}
use caddy_waf_ui.Text.{Bytes}

-- `\s`.
unfoldable pub is_blank : ℕ → Bool
is_blank c = (c == 32) || ((c == 9) || ((c == 10) || ((c == 12) || (c == 13))))

-- A group is a class whose bytes are kept.
pub data Piece : Type 0 where
  literal : Bytes → Piece
  class group : (ℕ → Bool) → Piece

unfoldable pub strip : Bytes → Bytes → Option Bytes
strip [] s = some s
strip (p ∷ ps) [] = none
strip (p ∷ ps) (x ∷ xs) = let rest = strip ps xs in if x == p then rest else none

unfoldable pub span : (ℕ → Bool) → Bytes → Bytes × Bytes
span k [] = ([], [])
span k (x ∷ xs) = let rest = span k xs in if k x then (x ∷ rest.0, rest.1) else ([], x ∷ xs)

abbrev some_text : Bytes × Bytes → Option (Bytes × Bytes)
some_text ([], rest) = none
some_text (x ∷ xs, rest) = some (x ∷ xs, rest)

abbrev pub kept : Bytes → Option (List Bytes) → Option (List Bytes)
kept text none = none
kept text (some texts) = some (text ∷ texts)

-- The texts of the groups, if the pattern matches.
unfoldable pub match_line : List Piece → Bytes → Option (List Bytes)
unfolding strip span
match_line [] [] = some []
match_line [] (c ∷ s) = none
match_line (literal p ∷ ps) s = elim (strip p s) [ none ↦ none | some rest ↦ match_line ps rest ]
match_line (class k ∷ ps) s = elim (some_text (span k s)) [
  | none ↦ none
  | some (text, rest) ↦ match_line ps rest
]
match_line (group k ∷ ps) s = elim (some_text (span k s)) [
  | none ↦ none
  | some (text, rest) ↦ kept text (match_line ps rest)
]

-- Not one of the class goes on behind it.
abbrev pub Stops : (ℕ → Bool) → Bytes → Type 0
Stops k [] = Unit
Stops k (c ∷ s) = k c ≡ false

strip-append : (p s : Bytes) → strip p (p ++ s) ≡ some s
unfolding strip
strip-append [] s = refl
strip-append (c ∷ p) s = ground (arith, strip-append p s)

span_stop : (k : ℕ → Bool) (s : Bytes) → Stops k s → span k s ≡ ([], s)
unfolding span
span_stop k [] h = refl
span_stop k (c ∷ s) h = rw h refl

span-append :
    (k : ℕ → Bool) (t s : Bytes) → All (λ c. k c ≡ true) t → Stops k s → span k (t ++ s) ≡ (t, s)
unfolding span
span-append k [] s h stop = span_stop k s stop
span-append k (c ∷ t) s h stop =
    rw (h.0, span) (ap (λ p. (c ∷ p.0, p.1)) (span-append k t s h.1 stop))

pub match_line-literal :
    (p s : Bytes) (ps : List Piece) → match_line (literal p ∷ ps) (p ++ s) ≡ match_line ps s
unfolding match_line
match_line-literal p s ps = rw (strip-append p s, match_line) refl

pub match_line-class :
    (k : ℕ → Bool) (t s : Bytes) (ps : List Piece)
    → t ≢ []
    → All (λ c. k c ≡ true) t
    → Stops k s
    → match_line (class k ∷ ps) (t ++ s) ≡ match_line ps s
unfolding match_line
match_line-class k [] s ps filled h stop = absurd (filled refl)
match_line-class k (c ∷ t) s ps filled h stop = rw (span-append k (c ∷ t) s h stop, match_line) refl

pub match_line-group :
    (k : ℕ → Bool) (t s : Bytes) (ps : List Piece)
    → t ≢ []
    → All (λ c. k c ≡ true) t
    → Stops k s
    → match_line (group k ∷ ps) (t ++ s) ≡ kept t (match_line ps s)
unfolding match_line
match_line-group k [] s ps filled h stop = absurd (filled refl)
match_line-group k (c ∷ t) s ps filled h stop = rw (span-append k (c ∷ t) s h stop, match_line) refl
