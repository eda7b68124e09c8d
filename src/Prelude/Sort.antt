-- ===== src/Prelude/Sort.antt =====
-- sort.Slice as an insertion sort: the program sorts by keys that differ, where all sorts agree.
use Prim.Native.Nat.{suc}
use mathlib.Core.Path.{◌≡◌, refl, ap, ◌∙◌}
use mathlib.Core.Bool.{Bool}
use mathlib.Core.List.{List, [], ◌∷◌}
use native.Mathlib.Omega.{arith}
use caddy_waf_ui.Prelude.Tests.{if◌then◌else◌}
use caddy_waf_ui.Prelude.Lists.{length}

module _ {ℓ} {A : Type ℓ} where
  unfoldable pub insert_by : (A → A → Bool) → A → List A → List A
  insert_by lt a [] = a ∷ []
  insert_by lt a (x ∷ xs) =
      let rest = insert_by lt a xs in if lt x a then x ∷ rest else a ∷ (x ∷ xs)

  unfoldable pub sort_by : (A → A → Bool) → List A → List A
  unfolding insert_by
  sort_by lt [] = []
  sort_by lt (x ∷ xs) = insert_by lt x (sort_by lt xs)

  length-insert_by :
      (lt : A → A → Bool) (a : A) (xs : List A) → length (insert_by lt a xs) ≡ suc (length xs)
  unfolding insert_by
  length-insert_by lt a [] = refl
  length-insert_by lt a (x ∷ xs) = ground (arith, length-insert_by lt a xs)

  pub length-sort_by : (lt : A → A → Bool) (xs : List A) → length (sort_by lt xs) ≡ length xs
  unfolding sort_by
  length-sort_by lt [] = refl
  length-sort_by lt (x ∷ xs) =
      length-insert_by lt x (sort_by lt xs) ∙ ap (λ n. suc n) (length-sort_by lt xs)
