-- ===== src/Ui/Overlay/Rules.antt =====
-- Overlays that internal/iprules/rules.go generates and internal/ui/overlay.go reads.
use caddy_waf_ui.Prelude.{
  ◌≡◌, inl, inr, refl, ap, ◌∙◌, sym, Bool, true, false, some, List, [], ◌∷◌, ◌++◌, All,
  Option-cases,
}
use caddy_waf_ui.Text.{Bytes, str, is_space, join}
use caddy_waf_ui.Text.Trim.{Free}
use caddy_waf_ui.Errors.{Result, ok, err}
use caddy_waf_ui.Domain.Model.{Site}
use caddy_waf_ui.IpRules.{
  IpRules, Net, normalize_entry, normalize_entries, onto, render, generate_rules,
}
use caddy_waf_ui.Ui.Overlay.{parse_ip_rules_overlay}
use caddy_waf_ui.Ui.Overlay.Words.{IsWord}
use caddy_waf_ui.Ui.Overlay.Blocks.{parse-render}

-- Package net prints addresses and networks as texts without spaces, which are not empty.
pub record PrintsWords (net : Net) : Type 0 where
  pub of_cidr : (entry text : Bytes) → net.parse_cidr entry ≡ some text → IsWord text
  pub of_ip_text :
      (entry text : Bytes) (four : Bool) → net.parse_ip entry ≡ some (four, text) → IsWord text

no_space-append :
    (s t : Bytes)
    → All (λ c. is_space c ≡ false) s
    → All (λ c. is_space c ≡ false) t
    → All (λ c. is_space c ≡ false) (s ++ t)
no_space-append [] t h k = k
no_space-append (c ∷ s) t h k = (h.0, no_space-append s t h.1 k)

IsWord-append : (s t : Bytes) → IsWord s → All (λ c. is_space c ≡ false) t → IsWord (s ++ t)
IsWord-append [] t h k = absurd (h.non_empty refl)
IsWord-append (c ∷ s) t h k = record {
  non_empty = cc;
  no_space = no_space-append (c ∷ s) t h.no_space k;
}

abbrev WordOrError : Result Bytes → Type 0
WordOrError (ok text) = IsWord text
WordOrError (err e) = Unit

abbrev WordsOrError : Result (List Bytes) → Type 0
WordsOrError (ok texts) = All IsWord texts
WordsOrError (err e) = Unit

normalize_entry-word :
    (net : Net) → PrintsWords net → (entry : Bytes) → WordOrError (normalize_entry net entry)
unfolding normalize_entry is_space
normalize_entry-word net prints entry = elim (Option-cases (net.parse_cidr entry)) [
  | inr (network, e) ↦ rw (e, normalize_entry) (prints.of_cidr entry network e)
  | inl not_cidr ↦ elim (Option-cases (net.parse_ip entry)) [
    | inl not_ip ↦ rw (not_cidr, not_ip, normalize_entry) tt
    | inr ((true, text), e) ↦
        rw (not_cidr, e, normalize_entry)
          (IsWord-append text (str "/32") (prints.of_ip_text entry text true e)
            (refl, (refl, (refl, tt))))
    | inr ((false, text), e) ↦
        rw (not_cidr, e, normalize_entry)
          (IsWord-append text (str "/128") (prints.of_ip_text entry text false e)
            (refl, (refl, (refl, (refl, tt)))))
  ]
]

more_words :
    (first : Result Bytes) (rest : Result (List Bytes))
    → WordOrError first
    → WordsOrError rest
    → WordsOrError (elim first [ ok text ↦ onto text rest | err e ↦ err e ])
more_words (ok text) (ok texts) h k = (h, k)
more_words (ok text) (err e) h k = tt
more_words (err e) rest h k = tt

normalize_entries-words :
    (net : Net)
    → PrintsWords net
    → (entries : List Bytes) → WordsOrError (normalize_entries net entries)
unfolding normalize_entries
normalize_entries-words net prints [] = tt
normalize_entries-words net prints (entry ∷ entries) =
    more_words (normalize_entry net entry) (normalize_entries net entries)
      (normalize_entry-word net prints entry) (normalize_entries-words net prints entries)

-- The text reads back as the normalized lists.
pub data ReadsBack (text : Bytes) : Result (List Bytes) → Result (List Bytes) → Type 0 where
  reads_back :
      (denied allowed : List Bytes)
      → parse_ip_rules_overlay text ≡ record { allowlist = allowed; denylist = denied }
      → ReadsBack text (ok denied) (ok allowed)

read_lists :
    (site : Site) (ts text : Bytes) (denied allowed : Result (List Bytes))
    → Free 10 site.domain
    → Free 10 ts
    → WordsOrError denied
    → WordsOrError allowed
    → elim denied [
      | err e ↦ err e
      | ok ds ↦ elim allowed [
        | err e ↦ err e
        | ok as' ↦ ok (render site (join ds (str " ")) (join as' (str " ")) ts)
      ]
    ]
      ≡ ok text
    → ReadsBack text denied allowed
read_lists site ts text (err e) allowed d t hd ha made = absurd (cc)
read_lists site ts text (ok ds) (err e) d t hd ha made = absurd (cc)
read_lists site ts text (ok ds) (ok as') d t hd ha made =
    let same : render site (join ds (str " ")) (join as' (str " ")) ts ≡ text = cc in
    reads_back ds as' (ap parse_ip_rules_overlay (sym same) ∙ parse-render site ts as' ds d t hd ha)

-- An overlay of IP rules that was generated reads back as the two normalized lists, where the domain
-- and the time hold no newline and package net prints addresses without spaces.
pub parse_ip_rules_overlay-generate_rules :
    (net : Net)
    → PrintsWords net
    → (site : Site) (rules : IpRules) (ts text : Bytes) → Free 10 site.domain
    → Free 10 ts
    → generate_rules net site rules ts ≡ ok text
    → ReadsBack text (normalize_entries net rules.denylist) (normalize_entries net rules.allowlist)
unfolding generate_rules
parse_ip_rules_overlay-generate_rules net prints site rules ts text d t made =
    read_lists site ts text (normalize_entries net rules.denylist)
      (normalize_entries net rules.allowlist) d t
      (normalize_entries-words net prints rules.denylist)
      (normalize_entries-words net prints rules.allowlist) made
