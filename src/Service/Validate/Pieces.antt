-- ===== src/Service/Validate/Pieces.antt =====
-- What splitting at a byte says of the pieces and of the whole.
use caddy_waf_ui.Prelude.{
  ℕ, ◌≡◌, ◌≢◌, refl, ap, ◌∙◌, true, false, List, [], ◌∷◌, ◌++◌, arith, ◌==◌, ==_iff, inl, inr,
  Bool-cases, All,
}
use caddy_waf_ui.Text.{Bytes, beq, has_prefix, has_suffix, contains, split, onto_first, join}

-- The pieces after the first.
abbrev pub later : List Bytes → List Bytes
later [] = []
later (w ∷ ws) = ws

abbrev pub IsFull : Bytes → Type 0
IsFull w = w ≢ []

later-All : (ws : List Bytes) → All IsFull ws → All IsFull (later ws)
later-All [] h = tt
later-All (w ∷ ws) h = h.1

pub split-ne-nil : (s : Bytes) (c : ℕ) → split s c ≢ []
unfolding split
split-ne-nil [] c = λ h. cc
split-ne-nil (x ∷ xs) c = ground (arith, split-ne-nil xs c)

later-split_ne :
    (x : ℕ) (xs : Bytes) (c : ℕ) → (x == c) ≡ false → later (split (x ∷ xs) c) ≡ later (split xs c)
unfolding split
later-split_ne x xs c h = ground (arith, split-ne-nil xs c)

later-split_eq :
    (x : ℕ) (xs : Bytes) (c : ℕ) → (x == c) ≡ true → later (split (x ∷ xs) c) ≡ split xs c
unfolding split
later-split_eq x xs c h = ground arith

join-onto_first :
    (x : ℕ) (ws : List Bytes) (sep : Bytes) → ws ≢ [] → join (onto_first x ws) sep ≡ x ∷ join ws sep
unfolding join
join-onto_first x [] sep h = absurd (h refl)
join-onto_first x (w ∷ []) sep h = refl
join-onto_first x (w ∷ (v ∷ ws)) sep h = refl

join-nil_cons : (ws : List Bytes) (sep : Bytes) → ws ≢ [] → join ([] ∷ ws) sep ≡ sep ++ join ws sep
unfolding join
join-nil_cons [] sep h = absurd (h refl)
join-nil_cons (w ∷ ws) sep h = refl

-- Joining the pieces gives the whole back.
pub join-split : (s : Bytes) (c : ℕ) → join (split s c) (c ∷ []) ≡ s
unfolding split
join-split [] c = unfold join in refl
join-split (x ∷ xs) c = elim (Bool-cases (x == c)) [
  | inl same ↦ rw same (
      ground (
        arith,
        join-nil_cons (split xs c) (c ∷ []) (split-ne-nil xs c),
        join-split xs c,
        ==_iff x c,
      ))
  | inr other ↦
      rw other (
        ground
          (arith, join-onto_first x (split xs c) (c ∷ []) (split-ne-nil xs c), join-split xs c))
]

-- No byte of the piece is the separator.
abbrev pub Lacks : ℕ → Bytes → Type 0
Lacks c = All (λ x. x ≢ c)

split-Lacks : (w : Bytes) (c : ℕ) → Lacks c w → split w c ≡ w ∷ []
unfolding split
split-Lacks [] c h = refl
split-Lacks (x ∷ w) c h = ground (arith, split-Lacks w c h.1)

split-append : (w s : Bytes) (c : ℕ) → Lacks c w → split (w ++ (c ∷ s)) c ≡ w ∷ split s c
unfolding split
split-append [] s c h = ground arith
split-append (x ∷ w) s c h = ground (arith, split-append w s c h.1)

-- Splitting what was joined gives the pieces back.
pub split-join :
    (w : Bytes) (ws : List Bytes) (c : ℕ)
    → All (Lacks c) (w ∷ ws)
    → split (join (w ∷ ws) (c ∷ [])) c ≡ w ∷ ws
unfolding join
split-join w [] c h = split-Lacks w c h.0
split-join w (v ∷ vs) c h =
    split-append w (join (v ∷ vs) (c ∷ [])) c h.0 ∙ ap (λ t. w ∷ t) (split-join v vs c h.1)

-- With no empty piece behind the first, a separator is not the last byte, and no two stand together.
ends_full : (s : Bytes) (c : ℕ) → All IsFull (later (split s c)) → has_suffix s (c ∷ []) ≡ false
unfolding has_suffix
ends_full [] c h = unfold beq in refl
ends_full (x ∷ []) c h = unfold beq split in ground arith
ends_full (x ∷ (y ∷ ys)) c h = elim (Bool-cases (x == c)) [
  | inl same ↦
      let pieces : All IsFull (split (y ∷ ys) c) = rw (later-split_eq x (y ∷ ys) c same) at h in
      unfold beq in ground (arith, ends_full (y ∷ ys) c (later-All (split (y ∷ ys) c) pieces))
  | inr other ↦
      let pieces : All IsFull (later (split (y ∷ ys) c)) =
        rw (later-split_ne x (y ∷ ys) c other) at h in
      unfold beq in ground (arith, ends_full (y ∷ ys) c pieces)
]

first_full : (s : Bytes) (c : ℕ) → All IsFull (split s c) → has_prefix s (c ∷ []) ≡ false
unfolding split has_prefix
first_full [] c h = refl
first_full (x ∷ xs) c h = elim (Bool-cases (x == c)) [
  | inl same ↦ absurd ((rw same at h).0 refl)
  | inr other ↦ rw other
]

inner_full :
    (s : Bytes) (c : ℕ) → All IsFull (later (split s c)) → contains s (c ∷ (c ∷ [])) ≡ false
unfolding contains
inner_full [] c h = unfold has_prefix in refl
inner_full (x ∷ xs) c h = elim (Bool-cases (x == c)) [
  | inl same ↦
      let pieces : All IsFull (split xs c) = rw (later-split_eq x xs c same) at h in
      unfold has_prefix in
      ground (arith, first_full xs c pieces, inner_full xs c (later-All (split xs c) pieces))
  | inr other ↦
      let pieces : All IsFull (later (split xs c)) = rw (later-split_ne x xs c other) at h in
      unfold has_prefix in ground (arith, inner_full xs c pieces)
]

-- Text whose pieces are all full neither begins nor ends with the separator, nor doubles it.
pub full_pieces :
    (s : Bytes) (c : ℕ)
    → All IsFull (split s c)
    → (has_prefix s (c ∷ []) ≡ false)
      × (has_suffix s (c ∷ []) ≡ false)
      × (contains s (c ∷ (c ∷ [])) ≡ false)
full_pieces s c h =
    let behind = later-All (split s c) h in
    (first_full s c h, ends_full s c behind, inner_full s c behind)
