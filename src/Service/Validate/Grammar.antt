-- ===== src/Service/Validate/Grammar.antt =====
-- The host names that `ValidateDomain` is meant to accept, described by their labels.
use caddy_waf_ui.Prelude.{
  ℕ, suc, ◌≤◌, ◌≡◌, ◌≢◌, refl, sym, ap, ◌⊎◌, ◌↔◌, Bool, true, false, ◌&&◌, none, some, List, [],
  ◌∷◌, arith, leb, inl, inr, Bool-cases, Option-cases, All, length,
}
use caddy_waf_ui.Text.{Bytes, str, beq, split, join}
use caddy_waf_ui.Text.Laws.{beq_iff, beq_refl}
use caddy_waf_ui.Errors.{DomainFault}
use caddy_waf_ui.Service.Validate.{
  max_domain_length, max_label_length, is_label_byte, check_bytes, first_byte, last_byte,
  validate_label, validate_labels, validate_domain,
}
use caddy_waf_ui.Service.Validate.Pieces.{
  Lacks, IsFull, join-split, split-join, split-ne-nil, full_pieces,
}

abbrev Between : ℕ → ℕ → ℕ → Type 0
Between lo hi c = (lo ≤ c) × (c ≤ hi)

-- [a-zA-Z0-9-]
abbrev pub IsLabelByte : ℕ → Type 0
IsLabelByte c = Between b'a' b'z' c ⊎ (Between b'A' b'Z' c ⊎ (Between b'0' b'9' c ⊎ (c ≡ b'-')))

-- One to 63 such bytes, with no hyphen at either end.
pub record IsLabel (w : Bytes) : Type 0 where
  pub bytes : All IsLabelByte w
  pub full : w ≢ []
  pub short : length w ≤ max_label_length
  pub begins : first_byte w ≢ b'-'
  pub ends : last_byte w ≢ b'-'

-- Labels only, or a wildcard in front of at least two labels.
abbrev pub IsLabels : List Bytes → Type 0
IsLabels labels =
    ((labels ≢ []) × All IsLabel labels)
    ⊎ ((rest : List Bytes) × (labels ≡ str "*" ∷ rest) × (2 ≤ length rest) × All IsLabel rest)

pub record IsHostname (domain : Bytes) : Type 0 where
  pub labels : List Bytes
  pub joined : domain ≡ join labels (str ".")
  pub fine : IsLabels labels
  pub fits : length domain ≤ max_domain_length

is_label_byte_iff : (c : ℕ) → (is_label_byte c ≡ true) ↔ IsLabelByte c
is_label_byte_iff c = (λ h. ground arith, λ h. ground arith)

check_bytes_sound : (w : Bytes) → check_bytes w ≡ none → All IsLabelByte w
unfolding check_bytes
check_bytes_sound [] h = tt
check_bytes_sound (c ∷ w) h = elim (Bool-cases (is_label_byte c)) [
  | inl fine ↦ ((is_label_byte_iff c).0 fine, check_bytes_sound w (rw fine at h))
  | inr bad ↦ let e : some (DomainFault.label_byte c) ≡ none = rw bad at h in cc
]

check_bytes_complete : (w : Bytes) → All IsLabelByte w → check_bytes w ≡ none
unfolding check_bytes
check_bytes_complete [] h = refl
check_bytes_complete (c ∷ w) h = rw ((is_label_byte_iff c).1 h.0) (check_bytes_complete w h.1)

validate_label_complete : (w : Bytes) → IsLabel w → validate_label w ≡ none
unfolding validate_label
validate_label_complete [] l = absurd (l.full refl)
validate_label_complete (c ∷ w) l = ground (arith, check_bytes_complete (c ∷ w) l.bytes)

pub validate_label_iff : (w : Bytes) → (validate_label w ≡ none) ↔ IsLabel w
unfolding validate_label
validate_label_iff w = (
  λ h. record {
    bytes = check_bytes_sound w (ground arith);
    full = λ e. let bad : validate_label [] ≡ none = rw e at h in cc;
    short = ground arith;
    begins = ground arith;
    ends = ground arith;
  },
  validate_label_complete w,
)

labels_sound :
    (count : ℕ) (ws : List Bytes) → validate_labels false count ws ≡ none → All IsLabel ws
unfolding validate_labels
labels_sound count [] h = tt
labels_sound count (w ∷ ws) h = elim (Option-cases (validate_label w)) [
  | inl fine ↦ ((validate_label_iff w).0 fine, labels_sound count ws (ground arith))
  | inr (fault, bad) ↦ absurd (ground arith)
]

labels_complete :
    (first : Bool) (count : ℕ) (ws : List Bytes)
    → All IsLabel ws
    → validate_labels first count ws ≡ none
unfolding validate_labels
labels_complete first count [] h = refl
labels_complete first count (w ∷ ws) h =
    ground (arith, labels_complete false count ws h.1, (validate_label_iff w).1 h.0)

-- The wildcard is accepted by its own test, in front of two labels at least.
wildcard_complete :
    (ws : List Bytes)
    → 2 ≤ length ws
    → All IsLabel ws
    → validate_labels true (length (str "*" ∷ ws)) (str "*" ∷ ws) ≡ none
unfolding validate_labels
wildcard_complete ws long h =
    ground (arith, beq_refl (str "*"), labels_complete false (suc (length ws)) ws h)

all_sound : (ws : List Bytes) → ws ≢ [] → validate_labels true (length ws) ws ≡ none → IsLabels ws
unfolding validate_labels
all_sound [] full h = absurd (full refl)
all_sound (w ∷ ws) full h = elim (Bool-cases (beq w (str "*") && leb 3 (length (w ∷ ws)))) [
  | inl wild ↦ inr (
    ws,
    ap (λ t. t ∷ ws) ((beq_iff w (str "*")).0 (ground arith)),
    ground arith,
    labels_sound (length (w ∷ ws)) ws (ground arith),
  )
  | inr plain ↦ inl (
    full,
    elim (Option-cases (validate_label w)) [
      | inl fine ↦ ((validate_label_iff w).0 fine, labels_sound (length (w ∷ ws)) ws (ground arith))
      | inr (fault, bad) ↦ absurd (ground arith)
    ],
  )
]

label_byte-ne-dot : (c : ℕ) → IsLabelByte c → c ≢ b'.'
label_byte-ne-dot c h = ground arith

label-Lacks : (w : Bytes) → All IsLabelByte w → All (λ x. x ≢ b'.') w
label-Lacks [] h = tt
label-Lacks (c ∷ w) h = (label_byte-ne-dot c h.0, label-Lacks w h.1)

labels-Lacks : (ws : List Bytes) → All IsLabel ws → All (Lacks b'.') ws
labels-Lacks [] h = tt
labels-Lacks (w ∷ ws) h = (label-Lacks w h.0.bytes, labels-Lacks ws h.1)

labels-IsFull : (ws : List Bytes) → All IsLabel ws → All IsFull ws
labels-IsFull [] h = tt
labels-IsFull (w ∷ ws) h = (h.0.full, labels-IsFull ws h.1)

-- What completeness needs of the labels, however they are described.
record Reads (ws : List Bytes) : Type 0 where
  some_label : ws ≢ []
  lack_dots : All (Lacks b'.') ws
  are_full : All IsFull ws
  accepted : validate_labels true (length ws) ws ≡ none

IsLabels-Reads : (ws : List Bytes) → IsLabels ws → Reads ws
IsLabels-Reads ws (inl (full, h)) = record {
  some_label = full;
  lack_dots = labels-Lacks ws h;
  are_full = labels-IsFull ws h;
  accepted = labels_complete true (length ws) ws h;
}
IsLabels-Reads ws (inr (rest, e, long, h)) = rw e (record {
  some_label = λ p. cc;
  lack_dots = (ground arith, labels-Lacks rest h);
  are_full = (λ p. cc, labels-IsFull rest h);
  accepted = wildcard_complete rest long h;
})

joined-ne-nil : (ws : List Bytes) → ws ≢ [] → All IsFull ws → join ws (str ".") ≢ []
unfolding join
joined-ne-nil [] some_label h = absurd (some_label refl)
joined-ne-nil (w ∷ []) some_label h = h.0
joined-ne-nil ([] ∷ (v ∷ ws)) some_label h = absurd (h.0 refl)
joined-ne-nil ((c ∷ w) ∷ (v ∷ ws)) some_label h = λ e. cc

split-labels :
    (ws : List Bytes) → ws ≢ [] → All (Lacks b'.') ws → split (join ws (str ".")) b'.' ≡ ws
split-labels [] full h = absurd (full refl)
split-labels (w ∷ ws) full h = split-join w ws b'.' h

-- The tests in front of the loop pass on every text whose pieces are full.
pieces_complete :
    (domain : Bytes)
    → domain ≢ []
    → length domain ≤ max_domain_length
    → All IsFull (split domain b'.')
    → validate_labels true (length (split domain b'.')) (split domain b'.') ≡ none
    → validate_domain domain ≡ none
unfolding validate_domain
pieces_complete domain some_byte fits full accepted =
    ground (arith, beq_iff domain [], full_pieces domain b'.' full)

joined_complete :
    (domain : Bytes) (ws : List Bytes)
    → domain ≡ join ws (str ".")
    → IsLabels ws
    → length domain ≤ max_domain_length
    → validate_domain domain ≡ none
joined_complete domain ws joined fine fits =
    let r = IsLabels-Reads ws fine in
    let pieces : split domain b'.' ≡ ws = rw joined (split-labels ws r.some_label r.lack_dots) in
    pieces_complete domain (rw joined (joined-ne-nil ws r.some_label r.are_full)) fits
      (rw pieces r.are_full) (rw pieces r.accepted)

validate_domain_sound : (domain : Bytes) → validate_domain domain ≡ none → IsHostname domain
unfolding validate_domain
validate_domain_sound domain h = record {
  labels = split domain b'.';
  joined = sym (join-split domain b'.');
  fine = all_sound (split domain b'.') (split-ne-nil domain b'.') (ground arith);
  fits = ground arith;
}

-- `ValidateDomain` accepts exactly the host names: at most 253 bytes, labels joined by single dots,
-- each of 1 to 63 letters, digits and hyphens with no hyphen at its ends, where a first label "*" is
-- allowed in front of at least two others.
pub validate_domain_iff : (domain : Bytes) → (validate_domain domain ≡ none) ↔ IsHostname domain
validate_domain_iff domain =
    (validate_domain_sound domain, λ h. joined_complete domain h.labels h.joined h.fine h.fits)
