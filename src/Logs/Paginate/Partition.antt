-- ===== src/Logs/Paginate/Partition.antt =====
-- The pages that `paginate` of internal/logs/reader.go cuts a list into.
use Prim.Native.Nat.{min}
use native.Mathlib.Nat.{div-add-mod', mod-lt}
use caddy_waf_ui.Prelude.{
  ℕ, zero, suc, ◌+◌, ◌-◌, ◌*◌, ◌≤◌, ◌<◌, ◌≡◌, refl, sym, ap, ◌∙◌, List, [], ◌∷◌, ◌++◌, arith, ◌⊎◌,
  inl, inr, length, take, drop, length-take, length-drop, ℤ, pos, negsuc,
}
use caddy_waf_ui.Logs.Paginate.{
  Page, at_least_one, page_count, clamp_page, clamp_to, slice, paginate, default_page_size,
}

-- There are enough pages for all entries, and no page too many.
page_count-covers : (total size : ℕ) → total ≤ page_count total (suc size) * suc size
unfolding page_count
page_count-covers total size = ground (
  arith,
  div-add-mod' (total + suc size - 1) (suc size),
  mod-lt (total + suc size - 1) {m = suc size} (omega arith),
)

suc-at_least_one : (n fallback : ℕ) → at_least_one (pos (suc n)) fallback ≡ suc n
suc-at_least_one n fallback = ground arith

at_least_one-positive : (n : ℤ) (fallback : ℕ) → 1 ≤ fallback → 1 ≤ at_least_one n fallback
at_least_one-positive (negsuc n) fallback h = h
at_least_one-positive (pos n) fallback h = ground (arith, h)

clamp_page-positive : (page pages : ℕ) → 1 ≤ clamp_page page pages
unfolding clamp_page
clamp_page-positive page pages = ground arith

clamp_page-cases :
    (page pages : ℕ)
    → 1 ≤ page
    → (clamp_page page pages ≤ pages) ⊎ ((clamp_page page pages ≡ 1) × (pages ≡ 0))
unfolding clamp_page
clamp_page-cases page zero h = inr (ground arith, refl)
clamp_page-cases page (suc pages) h = inl (ground arith)

in_range-clamp_page : (page pages : ℕ) → 1 ≤ page → page ≤ pages → clamp_page page pages ≡ page
unfolding clamp_page
in_range-clamp_page page pages low high = ground arith

module _ {ℓ} {A : Type ℓ} where
  take_agree :
      (n m : ℕ) (xs : List A) → min n (length xs) ≡ min m (length xs) → take n xs ≡ take m xs
  take_agree zero zero xs h = refl
  take_agree (suc n) (suc m) [] h = refl
  take_agree zero (suc m) [] h = refl
  take_agree (suc n) zero [] h = refl
  take_agree zero (suc m) (x ∷ xs) h = absurd (omega (arith, h))
  take_agree (suc n) zero (x ∷ xs) h = absurd (omega (arith, h))
  take_agree (suc n) (suc m) (x ∷ xs) h = ap (λ t. x ∷ t) (take_agree n m xs (omega (arith, h)))

  drop_agree :
      (n m : ℕ) (xs : List A) → min n (length xs) ≡ min m (length xs) → drop n xs ≡ drop m xs
  drop_agree zero zero xs h = refl
  drop_agree (suc n) (suc m) [] h = refl
  drop_agree zero (suc m) [] h = refl
  drop_agree (suc n) zero [] h = refl
  drop_agree zero (suc m) (x ∷ xs) h = absurd (omega (arith, h))
  drop_agree (suc n) zero (x ∷ xs) h = absurd (omega (arith, h))
  drop_agree (suc n) (suc m) (x ∷ xs) h = drop_agree n m xs (omega (arith, h))

  take-add : (n m : ℕ) (xs : List A) → take (n + m) xs ≡ take n xs ++ take m (drop n xs)
  take-add zero m xs = ap (λ k. take k xs) (omega arith)
  take-add (suc n) m [] =
      take_agree (suc n + m) zero [] (omega arith) ∙ take_agree zero m [] (omega arith)
  take-add (suc n) m (x ∷ xs) =
      take_agree (suc n + m) (suc (n + m)) (x ∷ xs) (omega arith)
      ∙ ap (λ t. x ∷ t) (take-add n m xs)

  take_all : (n : ℕ) (xs : List A) → length xs ≤ n → take n xs ≡ xs
  take_all zero [] h = refl
  take_all zero (x ∷ xs) h = absurd (omega (arith, h))
  take_all (suc n) [] h = refl
  take_all (suc n) (x ∷ xs) h = ap (λ t. x ∷ t) (take_all n xs (omega (arith, h)))

  -- Clamping both ends does not change the slice.
  slice-clamp_to :
      (xs : List A) (start size : ℕ)
      → slice xs (clamp_to (length xs) start) (clamp_to (length xs) (start + size))
        ≡ take size (drop start xs)
  slice-clamp_to xs start size =
      ap (λ t. take (clamp_to (length xs) (start + size) - clamp_to (length xs) start) t)
        (drop_agree (clamp_to (length xs) start) start xs (ground arith))
      ∙ take_agree (clamp_to (length xs) (start + size) - clamp_to (length xs) start) size
          (drop start xs) (ground (arith, length-drop start xs))

  -- In range, the page asked for is given.
  entries-paginate :
      (xs : List A) (n size : ℕ)
      → n < page_count (length xs) (suc size)
      → (paginate xs (pos (suc n)) (pos (suc size))).entries
        ≡ take (suc size) (drop (n * suc size) xs)
  unfolding paginate
  entries-paginate xs n size h =
      let total = length xs in
      let cut : ℕ → ℕ → List A = λ current width.
        slice xs (clamp_to total ((current - 1) * width))
          (clamp_to total ((current - 1) * width + width)) in
      ap (λ width. cut (clamp_page (at_least_one (pos (suc n)) 1) (page_count total width)) width)
        (suc-at_least_one size default_page_size)
      ∙ ap (λ start. cut (clamp_page start (page_count total (suc size))) (suc size))
          (suc-at_least_one n 1)
      ∙ ap (λ current. cut current (suc size))
          (in_range-clamp_page (suc n) (page_count total (suc size)) (omega arith)
            (omega (arith, h)))
      ∙ slice-clamp_to xs ((suc n - 1) * suc size) (suc size)
      ∙ ap (λ start. take (suc size) (drop (start * suc size) xs)) {x = suc n - 1} (omega arith)

  -- The first `n` pages, one after the other.
  pub first_pages : List A → ℕ → ℕ → List A
  first_pages xs size zero = []
  first_pages xs size (suc n) =
      first_pages xs size n ++ (paginate xs (pos (suc n)) (pos (suc size))).entries

  first_pages-take :
      (xs : List A) (size n : ℕ)
      → n ≤ page_count (length xs) (suc size)
      → first_pages xs size n ≡ take (n * suc size) xs
  unfolding first_pages
  first_pages-take xs size zero h = ap (λ k. take k xs) {x = zero} (omega arith)
  first_pages-take xs size (suc n) h =
      ap (λ t. first_pages xs size n ++ t) (entries-paginate xs n size (omega (arith, h)))
      ∙ ap (λ t. t ++ take (suc size) (drop (n * suc size) xs))
          (first_pages-take xs size n (omega (arith, h)))
      ∙ sym (take-add (n * suc size) (suc size) xs)
      ∙ ap (λ k. take k xs) {x = n * suc size + suc size} (omega arith)

  -- The pages 1, 2, ... up to the last, one after the other, are the whole list: no entry is lost or
  -- shown twice.
  pub paginate-partition :
      (xs : List A) (size : ℕ) → first_pages xs size (page_count (length xs) (suc size)) ≡ xs
  paginate-partition xs size =
      let last = page_count (length xs) (suc size) in
      first_pages-take xs size last (omega arith)
      ∙ take_all (last * suc size) xs (page_count-covers (length xs) size)

  -- A page has at most as many entries as its size says, counts all entries as its total, and its
  -- number is between 1 and the number of pages, or 1 if there is none.
  abbrev pub IsWellFormed : List A → Page A → Type 0
  IsWellFormed xs page =
      (1 ≤ page.page_size)
      × ((length page.entries ≤ page.page_size)
          × ((page.total ≡ length xs)
              × ((1 ≤ page.page)
                  × ((page.page ≤ page.pages) ⊎ ((page.page ≡ 1) × (page.pages ≡ 0))))))

  pub paginate-IsWellFormed :
      (xs : List A) (page page_size : ℤ) → IsWellFormed xs (paginate xs page page_size)
  unfolding paginate
  paginate-IsWellFormed xs page page_size =
      let width = at_least_one page_size default_page_size in
      let pages = page_count (length xs) width in
      let current = clamp_page (at_least_one page 1) pages in
      let shown = slice-clamp_to xs ((current - 1) * width) width in
      (
        at_least_one-positive page_size default_page_size (omega arith),
        (
          omega (arith, ap length shown, length-take width (drop ((current - 1) * width) xs)),
          (
            refl,
            (
              clamp_page-positive (at_least_one page 1) pages,
              clamp_page-cases (at_least_one page 1) pages
                  (at_least_one-positive page 1 (omega arith)),
            ),
          ),
        ),
      )
