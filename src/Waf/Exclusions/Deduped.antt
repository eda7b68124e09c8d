-- ===== src/Waf/Exclusions/Deduped.antt =====
-- What `dedupeExclusions` of internal/waf/exclusions.go makes of a valid list, without its keys.
use mathlib.Core.Bool.{false≢true}
use caddy_waf_ui.Prelude.{
  ℕ, ◌≡◌, ◌⊎◌, inl, inr, refl, sym, ap, ◌∙◌, Bool, true, false, List, [], ◌∷◌, ◌++◌, All, arith,
  Bool-cases, map, ◌==◌, ==_iff,
}
use caddy_waf_ui.Text.{Bytes, beq, is_digit}
use caddy_waf_ui.Text.Laws.{beq_iff}
use caddy_waf_ui.Text.Trim.{Free}
use caddy_waf_ui.Waf.Exclusions.{Exclusion, is_tag_byte, key_of, seen_in, dedupe_exclusions}
use caddy_waf_ui.Waf.Exclusions.Valid.{IsExclusion}
use caddy_waf_ui.Waf.Exclusions.Unique.{
  Fresh, fresh_nil, fresh_cons, dedupe_exclusions-All, Fresh-dedupe_exclusions,
  dedupe_exclusions-keys,
}

-- The exclusion stands in the list.
abbrev pub Among : Exclusion → List Exclusion → Type 0
Among ex [] = ⊥
Among ex (f ∷ fs) = (ex ≡ f) ⊎ Among ex fs

-- No exclusion stands twice.
abbrev pub Distinct : List Exclusion → Type 0
Distinct [] = Unit
Distinct (ex ∷ exs) = (¬ Among ex exs) × Distinct exs

-- A key can be taken apart, since its first two texts hold no zero byte.
zero_split :
    (a b s t : Bytes) → Free 0 a → Free 0 b → a ++ (0 ∷ s) ≡ b ++ (0 ∷ t) → (a ≡ b) × (s ≡ t)
zero_split [] [] s t h k e = (refl, cc)
zero_split [] (d ∷ b) s t h k e =
    let zero_byte : d ≡ 0 = cc in absurd (false≢true (sym k.0 ∙ (==_iff d 0).1 zero_byte))
zero_split (c ∷ a) [] s t h k e =
    let zero_byte : c ≡ 0 = cc in absurd (false≢true (sym h.0 ∙ (==_iff c 0).1 zero_byte))
zero_split (c ∷ a) (d ∷ b) s t h k e =
    let heads : c ≡ d = cc in
    let tails : a ++ (0 ∷ s) ≡ b ++ (0 ∷ t) = cc in
    let rest = zero_split a b s t h.1 k.1 tails in
    (ap (λ x. x ∷ a) heads ∙ ap (λ x. d ∷ x) rest.0, rest.1)

class-Free :
    (class : ℕ → Bool) (s : Bytes) → class 0 ≡ false → All (λ c. class c ≡ true) s → Free 0 s
class-Free class [] free h = tt
class-Free class (c ∷ cs) free h = (
  elim (Bool-cases (c == 0)) [
    | inl e ↦ absurd (false≢true (sym free ∙ ap class (sym ((==_iff c 0).0 e)) ∙ h.0))
    | inr e ↦ e
  ],
  class-Free class cs free h.1,
)

type-Free : (ex : Exclusion) → IsExclusion ex → Free 0 ex.type
type-Free ex valid = elim valid.value [
  | inl by_id ↦ rw by_id.0 (refl, (refl, tt))
  | inr by_tag ↦ rw by_tag.0 (refl, (refl, (refl, tt)))
]

value-Free : (ex : Exclusion) → IsExclusion ex → Free 0 ex.value
unfolding is_digit
value-Free ex valid = elim valid.value [
  | inl by_id ↦ class-Free is_digit ex.value refl by_id.1.in_class
  | inr by_tag ↦ class-Free is_tag_byte ex.value refl by_tag.1.in_class
]

-- Valid exclusions with one key are one exclusion.
same_key : (ex f : Exclusion) → IsExclusion ex → IsExclusion f → key_of ex ≡ key_of f → ex ≡ f
same_key ex f valid other e =
    let first = zero_split ex.type f.type _ _ (type-Free ex valid) (type-Free f other) e in
    let second =
      zero_split ex.value f.value _ _ (value-Free ex valid) (value-Free f other) first.1 in
    let parts : Bytes → Bytes → Bytes → Exclusion =
      λ t v p. record { type = t; value = v; param = p } in
    ap (λ t. parts t ex.value ex.param) first.0
    ∙ ap (λ v. parts f.type v ex.param) second.0
    ∙ ap (λ p. parts f.type f.value p) second.1

Among-All :
    (P : Exclusion → Type 0) (ex : Exclusion) (exs : List Exclusion)
    → All P exs
    → Among ex exs
    → P ex
Among-All P ex [] h there = absurd there
Among-All P ex (f ∷ fs) h (inl e) = rw e h.0
Among-All P ex (f ∷ fs) h (inr later) = Among-All P ex fs h.1 later

All-weaken :
    (P Q : Exclusion → Type 0) (exs : List Exclusion)
    → ((f : Exclusion) → P f → Q f)
    → All P exs
    → All Q exs
All-weaken P Q [] f h = tt
All-weaken P Q (ex ∷ exs) f h = (f ex h.0, All-weaken P Q exs f h.1)

All-Among : (exs : List Exclusion) → All (λ f. Among f exs) exs
All-Among [] = tt
All-Among (ex ∷ exs) = (
  inl refl,
  All-weaken (λ f. Among f exs) (λ f. Among f (ex ∷ exs)) exs (λ f there. inr there)
      (All-Among exs),
)

Among-seen :
    (ex : Exclusion) (exs : List Exclusion)
    → Among ex exs
    → seen_in (key_of ex) (map key_of exs) ≡ true
Among-seen ex [] there = absurd there
Among-seen ex (f ∷ fs) (inl e) =
    let same = (beq_iff (key_of ex) (key_of f)).1 (ap key_of e) in rw same refl
Among-seen ex (f ∷ fs) (inr later) = ground (arith, Among-seen ex fs later)

seen-Among :
    (key : Bytes) (exs : List Exclusion)
    → seen_in key (map key_of exs) ≡ true
    → (f : Exclusion) × (Among f exs × (key ≡ key_of f))
seen-Among key [] h = absurd (false≢true h)
seen-Among key (f ∷ fs) h = elim (Bool-cases (beq key (key_of f))) [
  | inl same ↦ (f, (inl refl, (beq_iff key (key_of f)).0 same))
  | inr other ↦
      let later = seen-Among key fs (ground (arith, h, other)) in
      (later.0, (inr later.1.0, later.1.1))
]

-- The keys of what follows are none of the seen ones.
Fresh-unseen :
    (f : Exclusion) (seen : List Bytes) (exs : List Exclusion)
    → Fresh seen exs
    → Among f exs
    → seen_in (key_of f) seen ≡ false
Fresh-unseen f _ _ fresh_nil there = absurd there
Fresh-unseen f _ _ (fresh_cons {seen = seen} {ex = ex} new later) (inl e) = rw e new
Fresh-unseen f _ _ (fresh_cons {seen = seen} {ex = ex} {exs = exs} new later) (inr there) =
    let unseen = Fresh-unseen f (key_of ex ∷ seen) exs later there in ground (arith, unseen)

Fresh-Distinct : (seen : List Bytes) (exs : List Exclusion) → Fresh seen exs → Distinct exs
Fresh-Distinct _ _ fresh_nil = tt
Fresh-Distinct _ _ (fresh_cons {seen = seen} {ex = ex} {exs = exs} new later) = (
  (λ there.
      let unseen = Fresh-unseen ex (key_of ex ∷ seen) exs later there in
      let own = (beq_iff (key_of ex) (key_of ex)).1 refl in absurd (ground (arith, unseen, own))),
  Fresh-Distinct (key_of ex ∷ seen) exs later,
)

-- A list without repetitions, of the exclusions of another one.
pub record IsDeduped (exs unique : List Exclusion) : Type 0 where
  pub distinct : Distinct unique
  pub none_new : (ex : Exclusion) → Among ex unique → Among ex exs
  pub none_lost : (ex : Exclusion) → Among ex exs → Among ex unique

-- Of a valid list, deduplication leaves each exclusion, as type, value and parameter, exactly once.
pub dedupe_exclusions-IsDeduped :
    (exs : List Exclusion) → All IsExclusion exs → IsDeduped exs (dedupe_exclusions exs)
dedupe_exclusions-IsDeduped exs valid = record {
  distinct = Fresh-Distinct [] (dedupe_exclusions exs) (Fresh-dedupe_exclusions exs);
  none_new = λ ex.
      Among-All (λ f. Among f exs) ex (dedupe_exclusions exs)
        (dedupe_exclusions-All (λ f. Among f exs) exs (All-Among exs));
  none_lost = λ ex there.
      let seen = dedupe_exclusions-keys (key_of ex) exs ∙ Among-seen ex exs there in
      let found = seen-Among (key_of ex) (dedupe_exclusions exs) seen in
      let same =
        same_key ex found.0 (Among-All IsExclusion ex exs valid there)
          (Among-All IsExclusion found.0 (dedupe_exclusions exs)
            (dedupe_exclusions-All IsExclusion exs valid) found.1.0)
          found.1.1 in
      rw same found.1.0;
}
