-- ===== src/Text/Trim.antt =====
-- Laws of trimming, cutting and splitting of texts.
use mathlib.Core.List.{reverse-append, reverse-reverse}
use caddy_waf_ui.Prelude.{
  append_assoc, ℕ, ◌≡◌, refl, sym, ap, ◌∙◌, true, false, Bool-cases, inl, inr, some, [], ◌∷◌, ◌++◌,
  reverse, All, ◌==◌, append-nil,
}
use caddy_waf_ui.Text.{Bytes, trim_left_by, trim_by, trim_space, is_space, cut, split, onto_first}

-- The text begins, and ends, with a byte that is not trimmed.
pub record Tight (s : Bytes) : Type 0 where
  pub first : ℕ
  pub others : Bytes
  pub begins : s ≡ first ∷ others
  pub first_kept : is_space first ≡ false
  pub init : Bytes
  pub last : ℕ
  pub ends : s ≡ init ++ (last ∷ [])
  pub last_kept : is_space last ≡ false

left_kept : (c : ℕ) (s : Bytes) → is_space c ≡ false → trim_left_by is_space (c ∷ s) ≡ c ∷ s
left_kept c s h = rw h refl

reverse-last : (s : Bytes) (c : ℕ) → reverse (s ++ (c ∷ [])) ≡ c ∷ reverse s
reverse-last s c = reverse-append s (c ∷ [])

-- Spaces behind a tight text are trimmed.
right_trimmed : (s : Bytes) → Tight s → trim_left_by is_space (reverse s) ≡ reverse s
right_trimmed s t =
    ap (λ x. trim_left_by is_space (reverse x)) t.ends
    ∙ ap (trim_left_by is_space) (reverse-last t.init t.last)
    ∙ left_kept t.last (reverse t.init) t.last_kept
    ∙ sym (reverse-last t.init t.last)
    ∙ ap reverse (sym t.ends)

left_trimmed : (s rest : Bytes) → Tight s → trim_left_by is_space (s ++ rest) ≡ s ++ rest
left_trimmed s rest t =
    ap (λ x. trim_left_by is_space (x ++ rest)) t.begins
    ∙ left_kept t.first (t.others ++ rest) t.first_kept
    ∙ ap (λ x. x ++ rest) (sym t.begins)

ends_trimmed : (s : Bytes) → Tight s → reverse (trim_left_by is_space (reverse s)) ≡ s
ends_trimmed s t = ap reverse (right_trimmed s t) ∙ reverse-reverse s

space_trimmed :
    (s : Bytes) → Tight s → reverse (trim_left_by is_space (reverse (s ++ (32 ∷ [])))) ≡ s
unfolding is_space
space_trimmed s t =
    ap (λ x. reverse (trim_left_by is_space x)) (reverse-last s 32) ∙ ends_trimmed s t

pub trim_space-Tight : (s : Bytes) → Tight s → trim_space s ≡ s
unfolding trim_space trim_by
trim_space-Tight s t =
    ap (λ x. reverse (trim_left_by is_space (reverse x)))
      (ap (trim_left_by is_space) (sym (append-nil s)) ∙ left_trimmed s [] t ∙ append-nil s)
    ∙ ends_trimmed s t

pub trim_space-before : (s : Bytes) → Tight s → trim_space (32 ∷ s) ≡ s
unfolding trim_space trim_by is_space
trim_space-before s t = trim_space-Tight s t

pub trim_space-after : (s : Bytes) → Tight s → trim_space (s ++ (32 ∷ [])) ≡ s
unfolding trim_space trim_by
trim_space-after s t =
    ap (λ x. reverse (trim_left_by is_space (reverse x))) (left_trimmed s (32 ∷ []) t)
    ∙ space_trimmed s t

pub trim_space-around : (s : Bytes) → Tight s → trim_space (32 ∷ (s ++ (32 ∷ []))) ≡ s
unfolding trim_space trim_by is_space
trim_space-around s t = trim_space-after s t

-- A separator that does not occur before.
abbrev pub Free : ℕ → Bytes → Type 0
Free c = All (λ x. (x == c) ≡ false)

pub Free-append : (c : ℕ) (s t : Bytes) → Free c s → Free c t → Free c (s ++ t)
Free-append c [] t h k = k
Free-append c (x ∷ s) t h k = (h.0, Free-append c s t h.1 k)

pub cut-first :
    (c : ℕ) (s rest : Bytes) → (c == c) ≡ true → Free c s → cut c (s ++ (c ∷ rest)) ≡ (s, some rest)
unfolding cut
cut-first c [] rest same h = rw (same, cut) refl
cut-first c (x ∷ s) rest same h =
    rw (h.0, cut) (ap (λ p. (x ∷ p.0, p.1)) (cut-first c s rest same h.1))

pub split-first :
    (c : ℕ) (s rest : Bytes)
    → (c == c) ≡ true
    → Free c s
    → split (s ++ (c ∷ rest)) c ≡ s ∷ split rest c
unfolding split
split-first c [] rest same h = rw (same, split) refl
split-first c (x ∷ s) rest same h =
    rw (h.0, split) (ap (onto_first x) (split-first c s rest same h.1))

pub split-free : (c : ℕ) (s : Bytes) → Free c s → split s c ≡ s ∷ []
unfolding split
split-free c [] h = refl
split-free c (x ∷ s) h = rw (h.0, split) (ap (onto_first x) (split-free c s h.1))

-- A text that begins with a kept byte still begins with it when it is trimmed.
reverse-cons : (c : ℕ) (s : Bytes) → reverse (c ∷ s) ≡ reverse s ++ (c ∷ [])
reverse-cons c s = reverse-append (c ∷ []) s

right_end :
    (s : Bytes) (c : ℕ)
    → is_space c ≡ false
    → (t : Bytes) × (trim_left_by is_space (s ++ (c ∷ [])) ≡ t ++ (c ∷ []))
right_end [] c h = ([], left_kept c [] h)
right_end (x ∷ s) c h = elim (Bool-cases (is_space x)) [
  | inl space ↦ let (t, e) = right_end s c h in (t, rw space e)
  | inr other ↦ (x ∷ s, left_kept x (s ++ (c ∷ [])) other)
]

pub trim_space-first :
    (c : ℕ) (s : Bytes) → is_space c ≡ false → (t : Bytes) × (trim_space (c ∷ s) ≡ c ∷ t)
unfolding trim_space trim_by
trim_space-first c s h =
    let (t, e) = right_end (reverse s) c h in
    (
      reverse t,
      ap (λ x. reverse (trim_left_by is_space (reverse x))) (left_kept c s h)
          ∙ ap (λ x. reverse (trim_left_by is_space x)) (reverse-cons c s)
          ∙ ap reverse e
          ∙ reverse-last t c,
    )

-- The text ends with a byte that is not trimmed.
pub record KeptEnd (s : Bytes) : Type 0 where
  pub init : Bytes
  pub last : ℕ
  pub ends : s ≡ init ++ (last ∷ [])
  pub last_kept : is_space last ≡ false

pub field_end : (c : ℕ) (s : Bytes) → All (λ c. is_space c ≡ false) (c ∷ s) → KeptEnd (c ∷ s)
field_end c [] h = record { init = []; last = c; ends = refl; last_kept = h.0 }
field_end c (d ∷ s) h =
    let rest = field_end d s h.1 in
    record {
      init = c ∷ rest.init;
      last = rest.last;
      ends = ap (λ t. c ∷ t) rest.ends;
      last_kept = rest.last_kept;
    }

pub KeptEnd-append : (a s : Bytes) → KeptEnd s → KeptEnd (a ++ s)
KeptEnd-append a s h = record {
  init = a ++ h.init;
  last = h.last;
  ends = ap (λ t. a ++ t) h.ends ∙ sym (append_assoc a h.init (h.last ∷ []));
  last_kept = h.last_kept;
}

pub Tight-cons : (c : ℕ) (s : Bytes) → is_space c ≡ false → KeptEnd (c ∷ s) → Tight (c ∷ s)
Tight-cons c s h end = record {
  first = c;
  others = s;
  begins = refl;
  first_kept = h;
  init = end.init;
  last = end.last;
  ends = end.ends;
  last_kept = end.last_kept;
}
