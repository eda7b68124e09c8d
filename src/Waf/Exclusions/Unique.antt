-- ===== src/Waf/Exclusions/Unique.antt =====
-- What `dedupeExclusions` and the numbering of `GenerateExclusions` of internal/waf/exclusions.go give.
use caddy_waf_ui.Prelude.{
  ℕ, suc, ◌+◌, ◌≡◌, inl, inr, refl, ap, ◌∙◌, Bool, true, false, List, [], ◌∷◌, All, arith,
  Bool-cases, length, if◌then◌else◌, map, ◌||◌,
}
use caddy_waf_ui.Text.{Bytes, beq}
use caddy_waf_ui.Text.Laws.{beq_iff}
use caddy_waf_ui.Waf.Exclusions.{
  Exclusion, key_of, seen_in, dedupe_from, dedupe_exclusions, rows_from,
}

module _ {κ} (P : Exclusion → Type κ) where
  dedupe_from-All :
      (seen : List Bytes) (exs : List Exclusion) → All P exs → All P (dedupe_from seen exs)
  unfolding dedupe_from
  dedupe_from-All seen [] h = tt
  dedupe_from-All seen (ex ∷ exs) h = elim (Bool-cases (seen_in (key_of ex) seen)) [
    | inl again ↦ rw (again, dedupe_from) (dedupe_from-All seen exs h.1)
    | inr new ↦ rw (new, dedupe_from) (h.0, dedupe_from-All (key_of ex ∷ seen) exs h.1)
  ]

  pub rows_from-All :
      (next : ℕ) (exs : List Exclusion)
      → All P exs
      → All (λ row. P row.exclusion) (rows_from next exs)
  unfolding rows_from
  rows_from-All next [] h = tt
  rows_from-All next (ex ∷ exs) h =
      (h.0, rows_from-All (if beq ex.param [] then next else next + 1) exs h.1)

  pub dedupe_exclusions-All : (exs : List Exclusion) → All P exs → All P (dedupe_exclusions exs)
  unfolding dedupe_exclusions
  dedupe_exclusions-All = dedupe_from-All []

pub length-rows_from : (next : ℕ) (exs : List Exclusion) → length (rows_from next exs) ≡ length exs
unfolding rows_from
length-rows_from next [] = refl
length-rows_from next (ex ∷ exs) =
    ap (λ n. suc n) (length-rows_from (if beq ex.param [] then next else next + 1) exs)

-- No key is in the list of seen ones, and none stands twice.
pub data Fresh : List Bytes → List Exclusion → Type 0 where
  fresh_nil : {seen : List Bytes} → Fresh seen []
  fresh_cons :
      {seen : List Bytes} {ex : Exclusion} {exs : List Exclusion}
      → seen_in (key_of ex) seen ≡ false
      → Fresh (key_of ex ∷ seen) exs
      → Fresh seen (ex ∷ exs)

dedupe_from-Fresh : (seen : List Bytes) (exs : List Exclusion) → Fresh seen (dedupe_from seen exs)
unfolding dedupe_from
dedupe_from-Fresh seen [] = fresh_nil
dedupe_from-Fresh seen (ex ∷ exs) = elim (Bool-cases (seen_in (key_of ex) seen)) [
  | inl again ↦ rw (again, dedupe_from) (dedupe_from-Fresh seen exs)
  | inr new ↦ rw (new, dedupe_from) (fresh_cons new (dedupe_from-Fresh (key_of ex ∷ seen) exs))
]

-- Seen already, or among the keys.
abbrev either : Bytes → List Bytes → List Exclusion → Bool
either key seen exs = seen_in key seen || seen_in key (map key_of exs)

same_seen :
    (key : Bytes) (ex : Exclusion) (seen : List Bytes)
    → seen_in (key_of ex) seen ≡ true
    → (beq key (key_of ex) || seen_in key seen) ≡ seen_in key seen
same_seen key ex seen h = elim (Bool-cases (beq key (key_of ex))) [
  | inl same ↦
      let known : seen_in key seen ≡ true =
        ap (λ k. seen_in k seen) ((beq_iff key (key_of ex)).0 same) ∙ h in
      rw (same, known) refl
  | inr other ↦ rw other refl
]

dedupe_from-keys :
    (key : Bytes) (seen : List Bytes) (exs : List Exclusion)
    → either key seen (dedupe_from seen exs) ≡ either key seen exs
unfolding dedupe_from
dedupe_from-keys key seen [] = refl
dedupe_from-keys key seen (ex ∷ exs) = elim (Bool-cases (seen_in (key_of ex) seen)) [
  | inl again ↦
      rw (again, dedupe_from)
        (ground (arith, dedupe_from-keys key seen exs, same_seen key ex seen again))
  | inr new ↦ rw (new, dedupe_from) (ground (arith, dedupe_from-keys key (key_of ex ∷ seen) exs))
]

pub Fresh-dedupe_exclusions : (exs : List Exclusion) → Fresh [] (dedupe_exclusions exs)
unfolding dedupe_exclusions
Fresh-dedupe_exclusions = dedupe_from-Fresh []

pub dedupe_exclusions-keys :
    (key : Bytes) (exs : List Exclusion)
    → seen_in key (map key_of (dedupe_exclusions exs)) ≡ seen_in key (map key_of exs)
unfolding dedupe_exclusions
dedupe_exclusions-keys key = dedupe_from-keys key []
