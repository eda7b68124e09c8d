-- ===== src/Service/Validate.antt =====
-- internal/service/validate.go: the strict validation of a domain name.
mod Pieces
pub mod Grammar
use caddy_waf_ui.Prelude.{
  ℕ, Bool, true, false, ◌&&◌, ◌||◌, Option, none, some, List, [], ◌∷◌, length, leb, ltb, ◌==◌,
  if◌then◌else◌, any,
}
use caddy_waf_ui.Errors.{
  DomainFault, empty, too_long, dot_at_end, two_dots, label_length, label_hyphen, label_byte,
}
use caddy_waf_ui.Text.{Bytes, str, beq, has_prefix, has_suffix, contains, split}

abbrev pub max_domain_length : ℕ
max_domain_length = 253

abbrev pub max_label_length : ℕ
max_label_length = 63

abbrev pub is_label_byte : ℕ → Bool
is_label_byte c =
    (leb b'a' c && leb c b'z')
    || ((leb b'A' c && leb c b'Z') || ((leb b'0' c && leb c b'9') || (c == b'-')))

-- The loop over the bytes of a label.
check_bytes : Bytes → Option DomainFault
check_bytes [] = none
check_bytes (c ∷ cs) =
    let rest = check_bytes cs in if is_label_byte c then rest else some (label_byte c)

-- `label[0]` and `label[len(label)-1]`, read only of a label that is not empty.
abbrev pub first_byte : Bytes → ℕ
first_byte [] = 0
first_byte (c ∷ cs) = c

abbrev pub last_byte : Bytes → ℕ
last_byte [] = 0
last_byte (c ∷ []) = c
last_byte (c ∷ (d ∷ ds)) = last_byte (d ∷ ds)

pub validate_label : Bytes → Option DomainFault
unfolding check_bytes
validate_label label =
    if (length label == 0) || ltb max_label_length (length label)
    then some label_length
    else if (first_byte label == b'-') || (last_byte label == b'-')
    then some label_hyphen
    else check_bytes label

-- The loop over the labels; `first` says that the index is 0, `count` is the number of labels.
validate_labels : Bool → ℕ → List Bytes → Option DomainFault
validate_labels first count [] = none
validate_labels first count (label ∷ labels) =
    let rest = validate_labels false count labels in
    if first && (beq label (str "*") && leb 3 count)
    then rest
    else elim (validate_label label) [ some fault ↦ some fault | none ↦ rest ]

pub validate_domain : Bytes → Option DomainFault
validate_domain domain =
    if beq domain []
    then some empty
    else if ltb max_domain_length (length domain)
    then some too_long
    else if has_prefix domain (str ".") || has_suffix domain (str ".")
    then some dot_at_end
    else if contains domain (str "..")
    then some two_dots
    else let labels = split domain b'.' in validate_labels true (length labels) labels
