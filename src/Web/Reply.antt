-- ===== src/Web/Reply.antt =====
-- The answers that the handlers of internal/ui write with package net/http.
use caddy_waf_ui.Prelude.{
  ℕ, Bool, not, ◌&&◌, ◌||◌, Option, none, some, [], ◌∷◌, ◌++◌, leb, ltb, ◌==◌, any, if◌then◌else◌,
}
use caddy_waf_ui.Text.{Bytes, str, beq}
use caddy_waf_ui.Waf.Exclusions.{decimal_text}
use caddy_waf_ui.Web.Http.{Answer}
use caddy_waf_ui.Web.Auth.{Cookie}

-- http.Error.
abbrev pub http_error : ℕ → Bytes → Answer
http_error status text = record {
  status = status;
  headers =
      (str "Content-Type", str "text/plain; charset=utf-8")
      ∷ ((str "X-Content-Type-Options", str "nosniff") ∷ []);
  body = text ++ str "\n";
}

-- `writeJSON` of internal/ui/api.go.
abbrev pub write_json : ℕ → Bytes → Answer
write_json status body = record {
  status = status;
  headers = (str "Content-Type", str "application/json") ∷ [];
  body = body;
}

-- http.Redirect, without the link that it writes into the body.
abbrev pub redirect : Bytes → ℕ → Answer
redirect location status = record {
  status = status;
  headers = (str "Location", location) ∷ [];
  body = [];
}

-- The bytes that a cookie's value may have; it is quoted if it has a space or a comma.
abbrev is_cookie_byte : ℕ → Bool
is_cookie_byte c = leb 32 c && (ltb c 127 && not ((c == b'"') || ((c == b';') || (c == b'\\'))))

unfoldable pub cookie_bytes : Bytes → Bytes
cookie_bytes [] = []
cookie_bytes (c ∷ s) = let rest = cookie_bytes s in if is_cookie_byte c then c ∷ rest else rest

abbrev quoted : Bytes → Bytes
quoted s = if any (λ c. (c == 32) || (c == b',')) s then str "\"" ++ (s ++ str "\"") else s

abbrev attribute : Bool → Bytes → Bytes
attribute b text = if b then str "; " ++ text else []

abbrev max_age_text : Option ℕ → Bytes
max_age_text none = str "0"
max_age_text (some n) = decimal_text n

-- The header Set-Cookie of http.SetCookie; every cookie of the program has the path "/".
unfoldable pub cookie_text : Cookie → Bytes
unfolding cookie_bytes decimal_text
cookie_text cookie =
    cookie.name
    ++ (str "="
        ++ (quoted (cookie_bytes cookie.value)
            ++ (str "; Path=/"
                ++ (attribute (not (beq cookie.expires [])) (str "Expires=" ++ cookie.expires)
                    ++ (str "; Max-Age="
                        ++ (max_age_text cookie.max_age
                            ++ (attribute cookie.http_only (str "HttpOnly")
                                ++ (attribute cookie.secure (str "Secure")
                                    ++ (str "; SameSite=" ++ cookie.same_site)))))))))

abbrev pub set_cookie : Cookie → Answer → Answer
set_cookie cookie answer = record answer {
  headers = (str "Set-Cookie", cookie_text cookie) ∷ answer.headers;
}
