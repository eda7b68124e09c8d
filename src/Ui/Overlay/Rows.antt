-- ===== src/Ui/Overlay/Rows.antt =====
-- The lines that internal/waf/exclusions.go writes, as internal/ui/overlay.go reads them.
use caddy_waf_ui.Prelude.{
  ℕ, zero, suc, ◌+◌, ◌/◌, ◌%◌, ◌≡◌, inl, inr, refl, sym, ap, ◌∙◌, Bool, true, false, none, some,
  List, [], ◌∷◌, ◌++◌, All, ◌==◌, append-nil, arith, Bool-cases,
}
use caddy_waf_ui.Text.{Bytes, str, is_space, is_digit}
use caddy_waf_ui.Text.Trim.{Tight, Free, KeptEnd, field_end, KeptEnd-append, Tight-cons}
use caddy_waf_ui.Text.Pattern.{
  Piece, literal, class, group, match_line, is_blank, strip, Stops, kept, match_line-literal,
  match_line-class, match_line-group,
}
use caddy_waf_ui.Waf.Exclusions.{
  exclude_by_id, exclude_by_tag, is_tag_byte, digits_on, decimal_text,
}
use caddy_waf_ui.Waf.Exclusions.Valid.{IsText}
use caddy_waf_ui.Ui.Overlay.{
  exclusion_url_line, exclusion_tag_line, target_line, target_id_end, target_tag_end, exclusion_of,
  or_else, targeted, exclusion_target_id, exclusion_target_tag,
}

All-weaken : (P Q : ℕ → Type 0) (s : Bytes) → ((c : ℕ) → P c → Q c) → All P s → All Q s
All-weaken P Q [] f h = tt
All-weaken P Q (c ∷ s) f h = (f c h.0, All-weaken P Q s f h.1)

-- The bytes of values and parameters are no spaces and no newlines.
tag_no_space : (c : ℕ) → is_tag_byte c ≡ true → is_space c ≡ false
unfolding is_space is_digit
tag_no_space c h = ground (arith, h)

tag_no_newline : (c : ℕ) → is_tag_byte c ≡ true → (c == 10) ≡ false
unfolding is_digit
tag_no_newline c h = ground (arith, h)

digit_tag : (c : ℕ) → is_digit c ≡ true → is_tag_byte c ≡ true
digit_tag c h = ground (arith, h)

-- Digits are also a tag.
pub digits-IsText : (s : Bytes) → IsText is_digit s → IsText is_tag_byte s
digits-IsText s h = record { filled = h.filled; in_class = All-weaken _ _ s digit_tag h.in_class }

pub text-Free : (s : Bytes) → IsText is_tag_byte s → Free 10 s
text-Free s h = All-weaken _ _ s tag_no_newline h.in_class

text-KeptEnd : (s : Bytes) → IsText is_tag_byte s → KeptEnd s
text-KeptEnd [] h = absurd (h.filled refl)
text-KeptEnd (c ∷ s) h = field_end c s (All-weaken _ _ (c ∷ s) tag_no_space h.in_class)

last_digit : (n : ℕ) → is_digit (b'0' + n % 10) ≡ true
unfolding is_digit
last_digit n = ground arith

-- The digits so far are kept, and a digit goes in front.
more_digits :
    (fuel n c : ℕ) (acc : Bytes)
    → All (λ x. is_digit x ≡ true) (c ∷ acc)
    → IsText is_digit (digits_on fuel n (c ∷ acc))
unfolding digits_on
more_digits zero n c acc h = record { filled = cc; in_class = h }
more_digits (suc fuel) n c acc h = elim (Bool-cases (n / 10 == 0)) [
  | inl last ↦ rw (last, digits_on) (record { filled = cc; in_class = (last_digit n, h) })
  | inr more ↦
      rw (more, digits_on) (more_digits fuel (n / 10) (b'0' + n % 10) (c ∷ acc) (last_digit n, h))
]

pub decimal_text-IsText : (n : ℕ) → IsText is_digit (decimal_text n)
unfolding decimal_text digits_on
decimal_text-IsText n = elim (Bool-cases (n / 10 == 0)) [
  | inl last ↦ rw (last, digits_on) (record { filled = cc; in_class = (last_digit n, tt) })
  | inr more ↦ rw (more, digits_on) (more_digits n (n / 10) (b'0' + n % 10) [] (last_digit n, tt))
]

-- A line with a value at its end, and one with a value in quotes.
unfoldable pub url_line : Bytes → Bytes
url_line value = str "SecRuleRemoveById " ++ value

unfoldable pub tag_line : Bytes → Bytes
tag_line value = str "SecRuleRemoveByTag \"" ++ (value ++ str "\"")

unfoldable pub target_text : Bytes → ℕ → Bytes → Bytes → Bytes
target_text param id control value =
    str "SecRule ARGS:"
    ++ (param
        ++ (str " \"@unconditionalMatch\" \"id:"
            ++ (decimal_text id
                ++ (str ",phase:2,pass,nolog,ctl:" ++ (control ++ (value ++ str "\""))))))

target_line-target_text :
    (end : List Piece) (param control value : Bytes) (id : ℕ)
    → IsText is_tag_byte param
    → match_line (target_line end) (target_text param id control value)
      ≡ kept param
          (match_line end (str ",phase:2,pass,nolog,ctl:" ++ (control ++ (value ++ str "\""))))
unfolding target_text is_blank is_digit
target_line-target_text end param control value id h =
    match_line-literal (str "SecRule ARGS:") _ _
    ∙ match_line-group is_tag_byte param _ _ h.filled h.in_class refl
    ∙ ap (kept param) (
        match_line-class is_blank (str " ") _ _ (cc) (refl, tt) refl
        ∙ match_line-literal (str "\"@unconditionalMatch\"") _ _
        ∙ match_line-class is_blank (str " ") _ _ (cc) (refl, tt) refl
        ∙ match_line-literal (str "\"id:") _ _
        ∙ match_line-class is_digit (decimal_text id) _ _ (decimal_text-IsText id).filled
            (decimal_text-IsText id).in_class refl)

quoted_value :
    (k : ℕ → Bool) (value : Bytes)
    → IsText k value
    → k b'"' ≡ false
    → match_line (group k ∷ (literal (str "\"") ∷ [])) (value ++ str "\"") ≡ some (value ∷ [])
unfolding match_line strip
quoted_value k value h free =
    match_line-group k value (str "\"") (literal (str "\"") ∷ []) h.filled h.in_class free

whole_value :
    (k : ℕ → Bool) (value : Bytes)
    → IsText k value
    → match_line (group k ∷ []) value ≡ some (value ∷ [])
unfolding match_line
whole_value k value h =
    ap (match_line (group k ∷ [])) (sym (append-nil value))
    ∙ match_line-group k value [] [] h.filled h.in_class tt

digits_stop : (value : Bytes) → IsText is_digit value → Stops is_blank value
unfolding is_blank is_digit
digits_stop [] h = tt
digits_stop (c ∷ s) h = let digit = h.in_class.0 in ground (arith, digit)

pub url_line-exclusion_of :
    (value : Bytes)
    → IsText is_digit value
    → exclusion_of (url_line value)
      ≡ some (record { type = exclude_by_id; value = value; param = [] })
unfolding exclusion_of url_line is_blank
url_line-exclusion_of value h =
    let found : match_line exclusion_url_line (url_line value) ≡ some (value ∷ []) =
      match_line-literal (str "SecRuleRemoveById") (str " " ++ value)
        (class is_blank ∷ (group is_digit ∷ []))
      ∙ match_line-class is_blank (str " ") value (group is_digit ∷ []) (cc) (refl, tt)
          (digits_stop value h)
      ∙ whole_value is_digit value h in
    rw found refl

tag_line_match :
    (value : Bytes)
    → IsText is_tag_byte value
    → match_line exclusion_tag_line (tag_line value) ≡ some (value ∷ [])
unfolding tag_line is_blank is_digit
tag_line_match value h =
    match_line-literal (str "SecRuleRemoveByTag") _ _
    ∙ match_line-class is_blank (str " ") _ _ (cc) (refl, tt) refl
    ∙ match_line-literal (str "\"") _ _
    ∙ quoted_value is_tag_byte value h refl

pub tag_line-exclusion_of :
    (value : Bytes)
    → IsText is_tag_byte value
    → exclusion_of (tag_line value)
      ≡ some (record { type = exclude_by_tag; value = value; param = [] })
unfolding exclusion_of match_line strip tag_line
tag_line-exclusion_of value h = let found = tag_line_match value h in rw found refl

-- A line with a parameter is not one of the lines without.
no_bare :
    (param control value : Bytes) (id : ℕ)
    → exclusion_of (target_text param id control value)
      ≡ or_else
          (targeted exclude_by_id
            (match_line exclusion_target_id (target_text param id control value)))
          (targeted exclude_by_tag
            (match_line exclusion_target_tag (target_text param id control value)))
unfolding exclusion_of match_line strip target_text
no_bare param control value id = refl

pub by_id-exclusion_of :
    (param value : Bytes) (id : ℕ)
    → IsText is_tag_byte param
    → IsText is_digit value
    → exclusion_of (target_text param id (str "ruleRemoveById=") value)
      ≡ some (record { type = exclude_by_id; value = value; param = param })
unfolding is_digit
by_id-exclusion_of param value id p h =
    let text = target_text param id (str "ruleRemoveById=") value in
    let found : match_line exclusion_target_id text ≡ some (param ∷ (value ∷ [])) =
      target_line-target_text target_id_end param (str "ruleRemoveById=") value id p
      ∙ ap (kept param) (
          match_line-literal (str ",phase:2,pass,nolog,ctl:ruleRemoveById=") (value ++ str "\"")
            (group is_digit ∷ (literal (str "\"") ∷ []))
          ∙ quoted_value is_digit value h refl) in
    no_bare param (str "ruleRemoveById=") value id ∙ rw found refl

pub by_tag-exclusion_of :
    (param value : Bytes) (id : ℕ)
    → IsText is_tag_byte param
    → IsText is_tag_byte value
    → exclusion_of (target_text param id (str "ruleRemoveByTag=") value)
      ≡ some (record { type = exclude_by_tag; value = value; param = param })
unfolding is_digit match_line strip
by_tag-exclusion_of param value id p h =
    let text = target_text param id (str "ruleRemoveByTag=") value in
    let not_id : match_line exclusion_target_id text ≡ none =
      target_line-target_text target_id_end param (str "ruleRemoveByTag=") value id p in
    let found : match_line exclusion_target_tag text ≡ some (param ∷ (value ∷ [])) =
      target_line-target_text target_tag_end param (str "ruleRemoveByTag=") value id p
      ∙ ap (kept param) (
          match_line-literal (str ",phase:2,pass,nolog,ctl:ruleRemoveByTag=") (value ++ str "\"")
            (group is_tag_byte ∷ (literal (str "\"") ∷ []))
          ∙ quoted_value is_tag_byte value h refl) in
    no_bare param (str "ruleRemoveByTag=") value id ∙ rw (not_id, found) refl

-- The lines hold no newline, and are not changed by trimming.
Tight-value :
    (c : ℕ) (before value : Bytes)
    → is_space c ≡ false
    → IsText is_tag_byte value
    → Tight (c ∷ (before ++ value))
Tight-value c before value kept_first h =
    Tight-cons c (before ++ value) kept_first
      (KeptEnd-append (c ∷ before) value (text-KeptEnd value h))

quote_end : (before : Bytes) → KeptEnd (before ++ str "\"")
unfolding is_space
quote_end before = KeptEnd-append before (str "\"") (field_end b'"' [] (refl, tt))

pub url_line-Tight : (value : Bytes) → IsText is_tag_byte value → Tight (url_line value)
unfolding url_line is_space
url_line-Tight value h = Tight-value b'S' (str "ecRuleRemoveById ") value refl h

pub tag_line-Tight : (value : Bytes) → Tight (tag_line value)
unfolding tag_line is_space
tag_line-Tight value =
    Tight-cons b'S' _ refl
      (KeptEnd-append (str "SecRuleRemoveByTag \"") (value ++ str "\"") (quote_end value))

pub target_text-Tight :
    (param control value : Bytes) (id : ℕ) → Tight (target_text param id control value)
unfolding target_text is_space
target_text-Tight param control value id = Tight-cons b'S' _ refl (
    KeptEnd-append (str "SecRule ARGS:") _ (
      KeptEnd-append param _ (
        KeptEnd-append (str " \"@unconditionalMatch\" \"id:") _ (
          KeptEnd-append (decimal_text id) _ (
            KeptEnd-append (str ",phase:2,pass,nolog,ctl:") _
              (KeptEnd-append control _ (quote_end value)))))))
