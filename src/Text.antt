-- ===== src/Text.antt =====
-- Go strings as lists of bytes, and the functions of package strings that the program calls.
-- The case mapping and the trimming follow the ASCII paths of that package.
pub mod Laws
pub mod Trim
pub mod Pattern
use Prim.Native.Char.{code}
use caddy_waf_ui.Prelude.{
  ℕ, ◌+◌, String, Bool, true, false, Option, none, some, ◌&&◌, ◌||◌, List, [], ◌∷◌, ◌++◌, map,
  reverse, leb, ◌==◌, if◌then◌else◌,
}

abbrev pub Bytes : Type 0
Bytes = List ℕ

-- The bytes of a literal, which is ASCII throughout.
abbrev pub str : String → Bytes
str String.[] = []
str (String.◌∷◌ c s) = code c ∷ str s

unfoldable pub beq : Bytes → Bytes → Bool
beq [] [] = true
beq (x ∷ xs) (y ∷ ys) = (x == y) && beq xs ys
beq _ _ = false

unfoldable pub has_prefix : Bytes → Bytes → Bool
has_prefix s [] = true
has_prefix [] (p ∷ ps) = false
has_prefix (x ∷ xs) (p ∷ ps) = (x == p) && has_prefix xs ps

unfoldable pub has_suffix : Bytes → Bytes → Bool
unfolding beq
has_suffix [] p = beq [] p
has_suffix (x ∷ xs) p = beq (x ∷ xs) p || has_suffix xs p

-- strings.Contains: the needle begins somewhere.
unfoldable pub contains : Bytes → Bytes → Bool
unfolding has_prefix
contains [] p = has_prefix [] p
contains (x ∷ xs) p = has_prefix (x ∷ xs) p || contains xs p

-- One more byte at the front of the first piece.
abbrev pub onto_first : ℕ → List Bytes → List Bytes
onto_first x [] = (x ∷ []) ∷ []
onto_first x (w ∷ ws) = (x ∷ w) ∷ ws

-- strings.Split by a separator of one byte.
unfoldable pub split : Bytes → ℕ → List Bytes
split [] c = [] ∷ []
split (x ∷ xs) c = let rest = split xs c in if x == c then [] ∷ rest else onto_first x rest

-- strings.Cut by a separator of one byte: what stands before it, and after it if it occurs.
unfoldable pub cut : ℕ → Bytes → Bytes × Option Bytes
cut c [] = ([], none)
cut c (x ∷ xs) = let rest = cut c xs in if x == c then ([], some xs) else (x ∷ rest.0, rest.1)

unfoldable pub lower_byte : ℕ → ℕ
lower_byte c = if leb b'A' c && leb c b'Z' then c + 32 else c

unfoldable pub to_lower : Bytes → Bytes
unfolding lower_byte
to_lower = map lower_byte

unfoldable pub equal_fold : Bytes → Bytes → Bool
unfolding to_lower beq
equal_fold a b = beq (to_lower a) (to_lower b)

unfoldable pub is_space : ℕ → Bool
is_space c = (c == 32) || (leb 9 c && leb c 13)

abbrev pub trim_left_by : (ℕ → Bool) → Bytes → Bytes
trim_left_by p [] = []
trim_left_by p (x ∷ xs) = let rest = trim_left_by p xs in if p x then rest else x ∷ xs

-- The cutset of Trim, or the test of TrimFunc, at both ends.
unfoldable pub trim_by : (ℕ → Bool) → Bytes → Bytes
trim_by p s = reverse (trim_left_by p (reverse (trim_left_by p s)))

unfoldable pub trim_space : Bytes → Bytes
unfolding trim_by is_space
trim_space = trim_by is_space

unfoldable pub is_digit : ℕ → Bool
is_digit c = leb b'0' c && leb c b'9'

-- strings.Join.
unfoldable pub join : List Bytes → Bytes → Bytes
join [] sep = []
join (w ∷ []) sep = w
join (w ∷ (v ∷ ws)) sep = w ++ (sep ++ join (v ∷ ws) sep)
