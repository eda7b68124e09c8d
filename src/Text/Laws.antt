-- ===== src/Text/Laws.antt =====
-- Laws of byte strings: what the tests of equality, prefixes and substrings decide.
use caddy_waf_ui.Prelude.{
  ◌≡◌, ◌↔◌, inl, inr, refl, ap, sym, ◌∙◌, true, Bool-cases, [], ◌∷◌, ◌++◌, arith,
}
use caddy_waf_ui.Text.{Bytes, beq, has_prefix, contains}

pub beq_iff : (a b : Bytes) → (beq a b ≡ true) ↔ (a ≡ b)
unfolding beq
beq_iff (x ∷ a) (y ∷ b) = ground (arith, beq_iff a b)
beq_iff _ _ = ground arith

pub beq_refl : (a : Bytes) → beq a a ≡ true
beq_refl a = (beq_iff a a).1 refl

-- The text begins with the prefix; the needle occurs in it.
pub record Begins (s p : Bytes) : Type 0 where
  pub rest : Bytes
  pub whole : p ++ rest ≡ s

pub record Occurs (s p : Bytes) : Type 0 where
  pub before : Bytes
  pub after : Bytes
  pub whole : before ++ (p ++ after) ≡ s

has_prefix_sound : (s p : Bytes) → has_prefix s p ≡ true → Begins s p
unfolding has_prefix
has_prefix_sound s [] h = record { rest = s; whole = refl }
has_prefix_sound [] (y ∷ p) h = absurd (cc)
has_prefix_sound (x ∷ s) (y ∷ p) h =
    let found = has_prefix_sound s p (ground (arith, h)) in
    let same : y ≡ x = ground (arith, h) in
    record {
      rest = found.rest;
      whole = ap (λ c. c ∷ (p ++ found.rest)) same ∙ ap (λ t. x ∷ t) found.whole;
    }

pub has_prefix-append : (p rest : Bytes) → has_prefix (p ++ rest) p ≡ true
unfolding has_prefix
has_prefix-append [] [] = refl
has_prefix-append [] (x ∷ rest) = refl
has_prefix-append (x ∷ p) rest = ground (arith, has_prefix-append p rest)

contains_sound : (s p : Bytes) → contains s p ≡ true → Occurs s p
unfolding contains
contains_sound [] p h =
    let found = has_prefix_sound [] p h in
    record { before = []; after = found.rest; whole = found.whole }
contains_sound (x ∷ s) p h = elim (Bool-cases (has_prefix (x ∷ s) p)) [
  | inl here ↦
      let found = has_prefix_sound (x ∷ s) p here in
      record { before = []; after = found.rest; whole = found.whole }
  | inr later ↦
      let found = contains_sound s p (ground (arith, h, later)) in
      record { before = x ∷ found.before; after = found.after; whole = ap (λ t. x ∷ t) found.whole }
]

prefix-contains : (s p : Bytes) → has_prefix s p ≡ true → contains s p ≡ true
unfolding contains
prefix-contains [] p h = h
prefix-contains (x ∷ s) p h = rw h refl

contains-append : (before p after : Bytes) → contains (before ++ (p ++ after)) p ≡ true
unfolding contains
contains-append [] p after = prefix-contains (p ++ after) p (has_prefix-append p after)
contains-append (x ∷ before) p after = ground (arith, contains-append before p after)

pub contains_iff : (s p : Bytes) → (contains s p ≡ true) ↔ Occurs s p
contains_iff s p = (
  contains_sound s p,
  λ found. ap (λ t. contains t p) (sym found.whole) ∙ contains-append found.before p found.after,
)
