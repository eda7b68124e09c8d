-- ===== src/Logs/Paginate.antt =====
-- `paginate` of internal/logs/reader.go, on lists whose length and page size stay far below 2 ^ 63.
pub mod Partition
use caddy_waf_ui.Prelude.{
  ℕ, zero, suc, ◌+◌, ◌-◌, ◌*◌, ◌/◌, ◌≤◌, ◌<◌, ◌≡◌, refl, sym, ap, ◌∙◌, Bool, true, false, List, [],
  ◌∷◌, ◌++◌, arith, ltb, if◌then◌else◌, length, take, drop, length-take, length-drop, ℤ, pos,
  negsuc,
}

pub record Page {ℓ} (A : Type ℓ) : Type ℓ where
  pub entries : List A
  pub page : ℕ
  pub page_size : ℕ
  pub total : ℕ
  pub pages : ℕ

abbrev pub default_page_size : ℕ
default_page_size = 50

-- `if n < 1 { n = fallback }`.
abbrev pub at_least_one : ℤ → ℕ → ℕ
at_least_one (negsuc n) fallback = fallback
at_least_one (pos n) fallback = if ltb n 1 then fallback else n

unfoldable pub page_count : ℕ → ℕ → ℕ
page_count total size = if ltb 0 total then (total + size - 1) / size else 0

-- Clamped to the last page, and to the first of an empty list.
unfoldable pub clamp_page : ℕ → ℕ → ℕ
clamp_page page pages =
    let low = if ltb pages page then pages else page in if ltb low 1 then 1 else low

abbrev pub clamp_to : ℕ → ℕ → ℕ
clamp_to total n = if ltb total n then total else n

-- `entries[start:end]`.
abbrev pub slice {ℓ} : {A : Type ℓ} → List A → ℕ → ℕ → List A
slice entries start stop = take (stop - start) (drop start entries)

module _ {ℓ} {A : Type ℓ} where
  unfoldable pub paginate : List A → ℤ → ℤ → Page A
  unfolding page_count clamp_page
  paginate entries page page_size =
      let size = at_least_one page_size default_page_size in
      let total = length entries in
      let pages = page_count total size in
      let current = clamp_page (at_least_one page 1) pages in
      let start = (current - 1) * size in
      let stop = start + size in
      record {
        entries = slice entries (clamp_to total start) (clamp_to total stop);
        page = current;
        page_size = size;
        total = total;
        pages = pages;
      }
