-- ===== src/Web/Url.antt =====
-- The query strings that internal/ui/forms.go and pages.go build with `url.Values`.
use caddy_waf_ui.Prelude.{
  ℕ, ◌+◌, ◌-◌, ◌/◌, ◌%◌, Bool, ◌&&◌, ◌||◌, List, [], ◌∷◌, ◌++◌, leb, ltb, ◌==◌, if◌then◌else◌,
  sort_by, map,
}
use caddy_waf_ui.Text.{Bytes, str, join, is_digit}
use caddy_waf_ui.System.Calls.{text_lt}

unfoldable pub is_unreserved : ℕ → Bool
unfolding is_digit
is_unreserved c =
    (leb b'a' c && leb c b'z')
    || ((leb b'A' c && leb c b'Z')
        || (is_digit c || ((c == b'-') || ((c == b'_') || ((c == b'.') || (c == b'~'))))))

abbrev upper_hex : ℕ → ℕ
upper_hex n = if ltb n 10 then b'0' + n else b'A' + (n - 10)

-- url.QueryEscape at one byte.
unfoldable pub escaped : ℕ → Bytes
unfolding is_unreserved
escaped c =
    if c == 32
    then str "+"
    else if is_unreserved c
    then c ∷ []
    else b'%' ∷ (upper_hex (c / 16) ∷ (upper_hex (c % 16) ∷ []))

unfoldable pub query_escape : Bytes → Bytes
unfolding escaped
query_escape [] = []
query_escape (c ∷ s) = escaped c ++ query_escape s

-- `url.Values` with one value to a key, in any order.
abbrev pub Values : Type 0
Values = List (Bytes × Bytes)

abbrev pair_text : Bytes × Bytes → Bytes
pair_text (key, value) = query_escape key ++ (str "=" ++ query_escape value)

-- `Encode` sorts by the keys.
unfoldable pub encode : Values → Bytes
unfolding query_escape
encode values = join (map pair_text (sort_by (λ a b. text_lt a.0 b.0) values)) (str "&")
