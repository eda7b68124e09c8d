-- ===== src/Web/Stack.antt =====
-- `buildHandler` of cmd/server/main.go and `SecurityHeaders` of internal/ui/static.go.
use caddy_waf_ui.Prelude.{◌||◌, List, [], ◌∷◌, ◌++◌, if◌then◌else◌, drop}
use caddy_waf_ui.Text.{Bytes, str, beq, equal_fold, has_prefix}
use caddy_waf_ui.Config.{Env}
use caddy_waf_ui.Web.Http.{Request, Handler, request_logger}
use caddy_waf_ui.Web.Auth.{Mac, session, require_bearer, csrf}
use caddy_waf_ui.Web.Limits.{limit_login, limit_api}

-- The muxes that the program mounts.
pub record Muxes (W : Type 0) : Type 0 where
  pub login_mux : Handler W
  pub static_handler : Handler W
  pub pages_mux : Handler W
  pub router : Handler W
  pub health_handler : Handler W

pub data Route : Type 0 where
  to_login to_static to_pages to_api to_health to_subtree : Route

-- The patterns of the ServeMux on a clean path: the longest one that matches, and the redirection of
-- a subtree's root that lacks its slash.
unfoldable pub route : Bytes → Route
route path =
    if beq path (str "/login")
    then to_login
    else if beq path (str "/health")
    then to_health
    else if has_prefix path (str "/static/")
    then to_static
    else if has_prefix path (str "/api/")
    then to_api
    else if beq path (str "/static") || beq path (str "/api")
    then to_subtree
    else to_pages

abbrev security_policy : Bytes
security_policy =
    str
      "default-src 'self'; style-src 'self'; script-src 'self'; img-src 'self'; font-src 'self'; connect-src 'self'; object-src 'none'; base-uri 'self'; form-action 'self'; frame-ancestors 'none'"

abbrev pub security_set : Request → List (Bytes × Bytes)
security_set r =
    let always =
      (str "Content-Security-Policy", security_policy)
      ∷ ((str "X-Content-Type-Options", str "nosniff")
          ∷ ((str "Referrer-Policy", str "no-referrer") ∷ [])) in
    if equal_fold r.forwarded_proto (str "https")
    then always ++ ((str "Strict-Transport-Security", str "max-age=31536000") ∷ [])
    else always

module _ {W : Type 0} where
  unfoldable pub security_headers : Handler W → Handler W
  security_headers next now r s =
      let served = next now r s in
      (record served.0 { headers = security_set r ++ served.0.headers }, served.1)

  unfoldable pub pages : Mac → Env → Muxes W → Handler W
  unfolding session csrf request_logger
  pages mac env muxes = session env (request_logger (csrf mac env muxes.pages_mux))

  unfoldable pub api : Env → Muxes W → Handler W
  unfolding limit_api require_bearer request_logger
  api env muxes = limit_api (require_bearer env (request_logger muxes.router))

  unfoldable pub mux : Mac → Env → Muxes W → Handler W
  unfolding route pages api limit_login
  mux mac env muxes now r s = elim (route r.path) [
    | to_login ↦ limit_login muxes.login_mux now r s
    | to_static ↦ muxes.static_handler now (record r { path = drop 8 r.path }) s
    | to_pages ↦ pages mac env muxes now r s
    | to_api ↦ api env muxes now r s
    | to_health ↦ muxes.health_handler now r s
    | to_subtree ↦
        (record { status = 301; headers = (str "Location", r.path ++ str "/") ∷ []; body = [] }, s)
  ]

  unfoldable pub build_handler : Mac → Env → Muxes W → Handler W
  unfolding security_headers mux
  build_handler mac env muxes = security_headers (mux mac env muxes)
