-- ===== src/Web/Auth.antt =====
-- internal/auth: the checks of the token, the session and the CSRF field, and their middlewares.
use caddy_waf_ui.Prelude.{
  ℕ, Option, none, some, Bool, true, false, not, ◌||◌, [], ◌∷◌, if◌then◌else◌,
}
use caddy_waf_ui.Text.{Bytes, str, beq, equal_fold, cut}
use caddy_waf_ui.Config.{Env, token}
use caddy_waf_ui.Web.Http.{Request, plain, Handler}

-- The constant-time comparison as an equality test.
unfoldable pub token_matches : Env → Bytes → Bool
token_matches env provided =
    let expected = token env in
    if beq expected [] || beq provided [] then false else beq provided expected

-- `strings.SplitN(s, " ", 2)` has two parts exactly where the text has a space.
unfoldable pub bearer_token : Request → Bytes
unfolding cut
bearer_token r =
    let parts = cut 32 r.authorization in
    elim parts.1 [
      | none ↦ []
      | some credentials ↦ if not (equal_fold parts.0 (str "bearer")) then [] else credentials
    ]

abbrev pub cookie_matches : Env → Option Bytes → Bool
cookie_matches env none = false
cookie_matches env (some value) = token_matches env value

unfoldable pub has_valid_session : Env → Request → Bool
unfolding token_matches bearer_token
has_valid_session env r = cookie_matches env r.session_cookie || token_matches env (bearer_token r)

abbrev session_cookie_name : Bytes
session_cookie_name = str "CADDY_UI_TOKEN"

-- A cookie with its attributes; a negative Max-Age is `none`, and no Expires is empty.
pub record Cookie : Type 0 where
  pub name : Bytes
  pub value : Bytes
  pub expires : Bytes
  pub max_age : Option ℕ
  pub http_only : Bool
  pub secure : Bool
  pub same_site : Bytes

abbrev pub set_session_cookie : Bytes → Cookie
set_session_cookie value = record {
  name = session_cookie_name;
  value = value;
  expires = [];
  max_age = some 43200;
  http_only = true;
  secure = true;
  same_site = str "Strict";
}

-- The cookie that `Logout` sets.
abbrev pub logout : Cookie
logout = record {
  name = session_cookie_name;
  value = [];
  expires = str "Thu, 01 Jan 1970 00:00:01 GMT";
  max_age = none;
  http_only = true;
  secure = true;
  same_site = str "Strict";
}

-- The cookie that `Login` sets, which is none where it returns false.
unfoldable pub login : Env → Bytes → Option Cookie
unfolding token_matches
login env provided =
    if not (token_matches env provided) then none else some (set_session_cookie (token env))

-- HMAC-SHA256 of a message under a secret, in hexadecimal.
abbrev pub Mac : Type 0
Mac = Bytes → Bytes → Bytes

unfoldable pub csrf_value : Mac → Env → Option Bytes
csrf_value mac env =
    let secret = token env in if beq secret [] then none else some (mac secret (str "csrf"))

abbrev pub is_safe_method : Bytes → Bool
is_safe_method m = beq m (str "GET") || (beq m (str "HEAD") || beq m (str "OPTIONS"))

module _ {W : Type 0} where
  -- A redirection, without the link that http.Redirect writes into its body.
  unfoldable pub session : Env → Handler W → Handler W
  unfolding has_valid_session
  session env next now r s =
      if not (has_valid_session env r)
      then (record { status = 302; headers = (str "Location", str "/login") ∷ []; body = [] }, s)
      else next now r s

  -- `auth.Middleware`.
  unfoldable pub require_bearer : Env → Handler W → Handler W
  unfolding token_matches bearer_token
  require_bearer env next now r s =
      if not (token_matches env (bearer_token r)) then (plain 401, s) else next now r s

  unfoldable pub csrf : Mac → Env → Handler W → Handler W
  unfolding token_matches bearer_token csrf_value
  csrf mac env next now r s =
      let served = next now r s in
      if is_safe_method r.method
      then served
      else if token_matches env (bearer_token r)
      then served
      else elim (csrf_value mac env) [
        | none ↦ (plain 403, s)
        | some expected ↦
            if beq (r.form (str "csrf")) [] || not (beq (r.form (str "csrf")) expected)
            then (plain 403, s)
            else served
      ]
