-- ===== src/Ui/Overlay/Words.antt =====
-- The lines of the overlays of internal/iprules/rules.go, as internal/ui/overlay.go reads them.
use caddy_waf_ui.Prelude.{
  ℕ, ◌≡◌, ◌≢◌, inl, inr, refl, sym, ap, ◌∙◌, false, none, some, List, [], ◌∷◌, ◌++◌, All, ◌==◌,
  arith,
}
use caddy_waf_ui.Text.{Bytes, str, beq, is_space, join}
use caddy_waf_ui.Text.Pattern.{is_blank, strip}
use caddy_waf_ui.Text.Trim.{Free, split-first}
use caddy_waf_ui.Domain.Slug.{domain_slug, domain_slug-IsSlugByte, IsSlugByte}
use caddy_waf_ui.IpRules.{IpRules}
use caddy_waf_ui.Ui.Overlay.{
  skip_blanks, blanks_then_rest, ip_rules_line, deny_word, allow_word, pieces, filled, fields,
  fields_of, ip_rules_of, parse_ip_rules_overlay,
}
use caddy_waf_ui.Ui.Overlay.Lines.{OneLine, joined, fixed}

-- An argument of a matcher: one byte or more, no spaces and no newlines.
pub record IsWord (s : Bytes) : Type 0 where
  pub non_empty : s ≢ []
  pub no_space : All (λ c. is_space c ≡ false) s

pieces-word :
    (w s : Bytes) → All (λ c. is_space c ≡ false) w → pieces (w ++ (32 ∷ s)) ≡ w ∷ pieces s
unfolding pieces is_space
pieces-word [] s h = refl
pieces-word (c ∷ w) s h = rw (h.0, pieces) (rw (pieces-word w s h.1) refl)

pieces-last : (w : Bytes) → All (λ c. is_space c ≡ false) w → pieces w ≡ w ∷ []
unfolding pieces
pieces-last [] h = refl
pieces-last (c ∷ w) h = rw (h.0, pieces) (rw (pieces-last w h.1) refl)

filled-word : (w : Bytes) (ws : List Bytes) → w ≢ [] → filled (w ∷ ws) ≡ w ∷ filled ws
unfolding filled
filled-word [] ws h = absurd (h refl)
filled-word (c ∷ w) ws h = refl

pub fields-join : (ws : List Bytes) → All IsWord ws → fields (join ws (str " ")) ≡ ws
unfolding fields join pieces filled
fields-join [] h = refl
fields-join (w ∷ []) h = ap filled (pieces-last w h.0.no_space) ∙ filled-word w [] h.0.non_empty
fields-join (w ∷ (v ∷ ws)) h =
    ap filled (pieces-word w (join (v ∷ ws) (str " ")) h.0.no_space)
    ∙ filled-word w _ h.0.non_empty
    ∙ ap (λ t. w ∷ t) (fields-join (v ∷ ws) h.1)

-- What one line adds to the lists.
abbrev pub with_line : Bytes → IpRules → IpRules
with_line line rest = record {
  allowlist = fields_of (ip_rules_line allow_word line) ++ rest.allowlist;
  denylist = fields_of (ip_rules_line deny_word line) ++ rest.denylist;
}

pub parse-line :
    (line rest : Bytes)
    → Free 10 line
    → parse_ip_rules_overlay (line ++ (10 ∷ rest)) ≡ with_line line (parse_ip_rules_overlay rest)
unfolding parse_ip_rules_overlay ip_rules_of
parse-line line rest free = ap ip_rules_of (split-first 10 line rest refl free)

-- A line that matches neither pattern.
pub record IsSilent (line : Bytes) : Type 0 where
  pub no_deny : ip_rules_line deny_word line ≡ none
  pub no_allow : ip_rules_line allow_word line ≡ none

pub skip_line :
    (line rest : Bytes)
    → OneLine line
    → IsSilent line
    → parse_ip_rules_overlay (line ++ (10 ∷ rest)) ≡ parse_ip_rules_overlay rest
skip_line line rest one silent =
    parse-line line rest one.free ∙ rw (silent.no_deny, silent.no_allow) refl

pub comment-IsSilent : (s : Bytes) → IsSilent (b'#' ∷ s)
unfolding ip_rules_line skip_blanks strip is_blank
comment-IsSilent s = record { no_deny = refl; no_allow = refl }

pub matcher-IsSilent : (s : Bytes) → IsSilent (b'@' ∷ s)
unfolding ip_rules_line skip_blanks strip is_blank
matcher-IsSilent s = record { no_deny = refl; no_allow = refl }

pub brace-IsSilent : IsSilent (str "}")
unfolding ip_rules_line skip_blanks strip is_blank
brace-IsSilent = record { no_deny = refl; no_allow = refl }

pub abort-IsSilent : (s : Bytes) → IsSilent (b'a' ∷ s)
unfolding ip_rules_line skip_blanks strip is_blank
abort-IsSilent s = record { no_deny = refl; no_allow = refl }

pub empty-IsSilent : IsSilent []
unfolding ip_rules_line skip_blanks strip is_blank
empty-IsSilent = record { no_deny = refl; no_allow = refl }

slug_byte : (c : ℕ) → IsSlugByte c → (c == 10) ≡ false
slug_byte c (inl h) = ground (arith, h)
slug_byte c (inr h) = ground (arith, h)

slug_bytes-Free : (s : Bytes) → All IsSlugByte s → Free 10 s
slug_bytes-Free [] h = tt
slug_bytes-Free (c ∷ s) h = (slug_byte c h.0, slug_bytes-Free s h.1)

pub slug : (domain : Bytes) → OneLine (domain_slug domain)
slug domain = record { free = slug_bytes-Free _ (domain_slug-IsSlugByte domain) }

-- Arguments begin with no blank.
no_blanks :
    (s : Bytes) → ((c : ℕ) (t : Bytes) → s ≡ c ∷ t → is_space c ≡ false) → blanks_then_rest s ≡ none
unfolding blanks_then_rest is_blank is_space
no_blanks [] h = refl
no_blanks (c ∷ t) h = let kept_first = h c t refl in ground (arith, kept_first)

pub record Starts (s : Bytes) : Type 0 where
  pub first : ℕ
  pub others : Bytes
  pub begins : s ≡ first ∷ others
  pub first_kept : is_space first ≡ false

word-Starts : (w rest : Bytes) → IsWord w → Starts (w ++ rest)
word-Starts [] rest h = absurd (h.non_empty refl)
word-Starts (c ∷ w) rest h = record {
  first = c;
  others = w ++ rest;
  begins = refl;
  first_kept = h.no_space.0;
}

pub join-Starts :
    (w : Bytes) (ws : List Bytes) → All IsWord (w ∷ ws) → Starts (join (w ∷ ws) (str " "))
unfolding join
join-Starts [] ws h = absurd (h.0.non_empty refl)
join-Starts (c ∷ w) [] h = record {
  first = c;
  others = w;
  begins = refl;
  first_kept = h.0.no_space.0;
}
join-Starts (c ∷ w) (v ∷ ws) h = word-Starts (c ∷ w) _ h.0

rest_taken : (s : Bytes) → Starts s → blanks_then_rest (32 ∷ s) ≡ some s
unfolding blanks_then_rest is_blank is_space
rest_taken s h =
    let none_more : blanks_then_rest (h.first ∷ h.others) ≡ none =
      let kept_first = h.first_kept in ground (arith, kept_first) in
    ap (λ x. blanks_then_rest (32 ∷ x)) h.begins ∙ rw none_more (ap some (sym h.begins))

pub deny_line :
    (s : Bytes) → Starts s → ip_rules_line deny_word (str "    remote_ip " ++ s) ≡ some s
unfolding ip_rules_line skip_blanks strip is_blank
deny_line s h = rest_taken s h

pub allow_line :
    (s : Bytes) → Starts s → ip_rules_line allow_word (str "    not remote_ip " ++ s) ≡ some s
unfolding ip_rules_line skip_blanks strip is_blank
allow_line s h = rest_taken s h

pub deny_is_no_allow : (s : Bytes) → ip_rules_line allow_word (str "    remote_ip " ++ s) ≡ none
unfolding ip_rules_line skip_blanks strip is_blank
deny_is_no_allow s = refl

pub allow_is_no_deny : (s : Bytes) → ip_rules_line deny_word (str "    not remote_ip " ++ s) ≡ none
unfolding ip_rules_line skip_blanks strip is_blank
allow_is_no_deny s = refl

no_newlines : (s : Bytes) → All (λ c. is_space c ≡ false) s → Free 10 s
unfolding is_space
no_newlines [] h = tt
no_newlines (c ∷ s) h = let kept_byte = h.0 in (ground (arith, kept_byte), no_newlines s h.1)

pub join-OneLine : (ws : List Bytes) → All IsWord ws → OneLine (join ws (str " "))
unfolding join
join-OneLine [] h = record { free = tt }
join-OneLine (w ∷ []) h = record { free = no_newlines w h.0.no_space }
join-OneLine (w ∷ (v ∷ ws)) h =
    joined (record { free = no_newlines w h.0.no_space })
      (joined (fixed (str " ") refl) (join-OneLine (v ∷ ws) h.1))

pub Starts-filled : (s : Bytes) → Starts s → beq s [] ≡ false
unfolding beq
Starts-filled [] h = absurd (cc)
Starts-filled (c ∷ s) h = refl
