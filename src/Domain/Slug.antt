-- ===== src/Domain/Slug.antt =====
-- internal/domain/slug.go: the normalisation of a domain name to a safe file name.
use caddy_waf_ui.Prelude.{
  ℕ, ◌≡◌, refl, ap, Bool, true, ◌&&◌, ◌||◌, [], ◌∷◌, ◌++◌, map, leb, ◌==◌, if◌then◌else◌, All, ◌⊎◌,
  inl, inr, Bool-cases,
}
use caddy_waf_ui.Text.{Bytes, str, lower_byte, to_lower}

-- The replacer of `DomainSlug` at one byte.
abbrev replaced : ℕ → Bytes
replaced c =
    if c == b'.'
    then b'_' ∷ []
    else if c == b'*'
    then str "wildcard"
    else if c == b'-'
    then b'_' ∷ []
    else c ∷ []

legacy : Bytes → Bytes
legacy [] = []
legacy (c ∷ cs) = replaced c ++ legacy cs

abbrev pub is_slug_byte : ℕ → Bool
is_slug_byte c = (leb b'a' c && leb c b'z') || (leb b'0' c && leb c b'9')

abbrev sanitize : ℕ → ℕ
sanitize c = if is_slug_byte c then c else b'_'

unfoldable pub domain_slug : Bytes → Bytes
unfolding legacy to_lower
domain_slug domain = map sanitize (legacy (to_lower domain))

-- A byte of a file name that is no separator, no dot and no control character.
abbrev pub IsSlugByte : ℕ → Type 0
IsSlugByte c = (is_slug_byte c ≡ true) ⊎ (c ≡ b'_')

sanitize-IsSlugByte : (c : ℕ) → IsSlugByte (sanitize c)
sanitize-IsSlugByte c = elim (Bool-cases (is_slug_byte c)) [
  | inl fine ↦ rw fine (inl fine)
  | inr other ↦ rw other (inr refl)
]

map-IsSlugByte : (s : Bytes) → All IsSlugByte (map sanitize s)
map-IsSlugByte [] = tt
map-IsSlugByte (c ∷ s) = (sanitize-IsSlugByte c, map-IsSlugByte s)

-- Whatever the domain is, every byte of its slug is a lower-case letter, a digit or an underscore.
pub domain_slug-IsSlugByte : (domain : Bytes) → All IsSlugByte (domain_slug domain)
unfolding domain_slug
domain_slug-IsSlugByte domain = map-IsSlugByte (legacy (to_lower domain))

same_legacy :
    (a b : Bytes) → legacy (to_lower (a ++ (b'.' ∷ b))) ≡ legacy (to_lower (a ++ (b'-' ∷ b)))
unfolding legacy to_lower lower_byte
same_legacy [] b = refl
same_legacy (c ∷ a) b = ap (λ t. replaced (lower_byte c) ++ t) (same_legacy a b)

-- A dot and a hyphen at the same place give the same slug, whatever stands around them.
pub dot-domain_slug : (a b : Bytes) → domain_slug (a ++ (b'.' ∷ b)) ≡ domain_slug (a ++ (b'-' ∷ b))
unfolding domain_slug
dot-domain_slug a b = ap (map sanitize) (same_legacy a b)
