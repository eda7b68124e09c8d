-- ===== src/IpRules/Arguments.antt =====
-- What the matchers of internal/iprules/rules.go receive as arguments.
use caddy_waf_ui.Prelude.{
  ℕ, ◌≡◌, inl, inr, refl, Bool, true, false, ◌&&◌, ◌||◌, none, some, List, [], ◌∷◌, ◌++◌, All, leb,
  ◌==◌, Option-cases,
}
use caddy_waf_ui.Text.{Bytes, str, join, is_digit}
use caddy_waf_ui.Errors.{invalid_ip, Result, ok, err}
use caddy_waf_ui.IpRules.{Net, normalize_entry, onto, normalize_entries}

-- The bytes of an address or a network: digits, the letters a to f, and ". : /".
unfoldable pub is_address_byte : ℕ → Bool
unfolding is_digit
is_address_byte c =
    is_digit c || ((leb b'a' c && leb c b'f') || ((c == b'.') || ((c == b':') || (c == b'/'))))

abbrev pub IsAddress : Bytes → Type 0
IsAddress = All (λ c. is_address_byte c ≡ true)

-- The texts that package net gives are made of such bytes.
pub record PrintsAddresses (net : Net) : Type 0 where
  pub of_cidr : (entry text : Bytes) → net.parse_cidr entry ≡ some text → IsAddress text
  pub of_ip_text :
      (entry text : Bytes) (four : Bool) → net.parse_ip entry ≡ some (four, text) → IsAddress text

-- Neither an address nor a network.
abbrev pub IsRefused : Net → Bytes → Type 0
IsRefused net entry = (net.parse_cidr entry ≡ none) × (net.parse_ip entry ≡ none)

pub data Among (entry : Bytes) : List Bytes → Type 0 where
  head : (entries : List Bytes) → Among entry (entry ∷ entries)
  tail :
      {other : Bytes} {entries : List Bytes} → Among entry entries → Among entry (other ∷ entries)

-- The outcome for an entry, and for a list.
data Normalized (net : Net) (entry : Bytes) : Result Bytes → Type 0 where
  address : (text : Bytes) → IsAddress text → Normalized net entry (ok text)
  no_address : IsRefused net entry → Normalized net entry (err (invalid_ip entry))

pub data AllNormalized (net : Net) (entries : List Bytes) : Result (List Bytes) → Type 0 where
  addresses : (texts : List Bytes) → All IsAddress texts → AllNormalized net entries (ok texts)
  one_refused :
      (entry : Bytes)
      → Among entry entries
      → IsRefused net entry
      → AllNormalized net entries (err (invalid_ip entry))

IsAddress-append : (s t : Bytes) → IsAddress s → IsAddress t → IsAddress (s ++ t)
IsAddress-append [] t h k = k
IsAddress-append (c ∷ cs) t h k = (h.0, IsAddress-append cs t h.1 k)

normalize_entry-Normalized :
    (net : Net)
    → PrintsAddresses net
    → (entry : Bytes) → Normalized net entry (normalize_entry net entry)
unfolding normalize_entry is_digit is_address_byte
normalize_entry-Normalized net prints entry = elim (Option-cases (net.parse_cidr entry)) [
  | inr (network, e) ↦ rw (e, normalize_entry) (address network (prints.of_cidr entry network e))
  | inl not_cidr ↦ elim (Option-cases (net.parse_ip entry)) [
    | inl not_ip ↦ rw (not_cidr, not_ip, normalize_entry) (no_address (not_cidr, not_ip))
    | inr ((true, text), e) ↦
        rw (not_cidr, e, normalize_entry)
          (address (text ++ str "/32") (
            IsAddress-append text (str "/32") (prints.of_ip_text entry text true e)
              (refl, (refl, (refl, tt)))))
    | inr ((false, text), e) ↦
        rw (not_cidr, e, normalize_entry)
          (address (text ++ str "/128") (
            IsAddress-append text (str "/128") (prints.of_ip_text entry text false e)
              (refl, (refl, (refl, (refl, tt))))))
  ]
]

more-Normalized :
    (net : Net) (entry : Bytes) (entries : List Bytes) (first : Result Bytes)
    (rest : Result (List Bytes))
    → Normalized net entry first
    → AllNormalized net entries rest
    → AllNormalized net (entry ∷ entries) (elim first [ ok text ↦ onto text rest | err e ↦ err e ])
more-Normalized net entry entries (ok t) (ok ts) (address text h) (addresses texts k) =
    addresses (text ∷ texts) (h, k)
more-Normalized net entry entries (ok t) (err e) (address text h) (one_refused bad among refused) =
    one_refused bad (tail among) refused
more-Normalized net entry entries (err e) rest (no_address refused) _ =
    one_refused entry (head entries) refused

-- A list is refused for one of its entries that is neither an address nor a network, or it is turned
-- into texts made of address bytes.
pub normalize_entries-AllNormalized :
    (net : Net)
    → PrintsAddresses net
    → (entries : List Bytes) → AllNormalized net entries (normalize_entries net entries)
unfolding normalize_entries
normalize_entries-AllNormalized net prints [] = addresses [] tt
normalize_entries-AllNormalized net prints (entry ∷ entries) =
    more-Normalized net entry entries (normalize_entry net entry) (normalize_entries net entries)
      (normalize_entry-Normalized net prints entry)
      (normalize_entries-AllNormalized net prints entries)

-- Address bytes with spaces between.
pub is_argument_byte : ℕ → Bool
is_argument_byte c = is_address_byte c || (c == 32)

abbrev pub IsArguments : Bytes → Type 0
IsArguments = All (λ c. is_argument_byte c ≡ true)

IsArguments-append : (s t : Bytes) → IsArguments s → IsArguments t → IsArguments (s ++ t)
IsArguments-append [] t h k = k
IsArguments-append (c ∷ cs) t h k = (h.0, IsArguments-append cs t h.1 k)

address-IsArguments : (s : Bytes) → IsAddress s → IsArguments s
unfolding is_argument_byte
address-IsArguments [] h = tt
address-IsArguments (c ∷ cs) h = (rw h.0 refl, address-IsArguments cs h.1)

pub join-IsArguments :
    (texts : List Bytes) → All IsAddress texts → IsArguments (join texts (str " "))
unfolding join is_argument_byte is_address_byte is_digit
join-IsArguments [] h = tt
join-IsArguments (t ∷ []) h = address-IsArguments t h.0
join-IsArguments (t ∷ (u ∷ ts)) h =
    IsArguments-append t (str " " ++ join (u ∷ ts) (str " ")) (address-IsArguments t h.0)
      (refl, join-IsArguments (u ∷ ts) h.1)
