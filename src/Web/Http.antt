-- ===== src/Web/Http.antt =====
-- Requests, answers and handlers, as far as the middlewares use net/http.
use caddy_waf_ui.Prelude.{ℕ, Option, List, [], ◌∷◌, ◌++◌}
use caddy_waf_ui.Text.{Bytes}
use caddy_waf_ui.Ratelimit.Bucket.{Bucket}
use caddy_waf_ui.Ratelimit.Clients.{ClientLimiter}

pub record Request : Type 0 where
  pub method : Bytes
  pub path : Bytes
  pub remote_addr : Bytes
  -- Header values, empty where the header is absent.
  pub authorization : Bytes
  pub forwarded_proto : Bytes
  -- The first cookie CADDY_UI_TOKEN.
  pub session_cookie : Option Bytes
  -- The first cookie ui_flash.
  pub flash_cookie : Option Bytes
  -- FormValue, and the first value of a key in the query of the URL, empty where there is none.
  pub form : Bytes → Bytes
  pub query : Bytes → Bytes
  pub body : Bytes

-- The headers in the order in which they are set: a later one replaces an earlier one.
pub record Answer : Type 0 where
  pub status : ℕ
  pub headers : List (Bytes × Bytes)
  pub body : Bytes

abbrev pub plain : ℕ → Answer
plain status = record { status = status; headers = []; body = [] }

-- `LogRequest`'s entry.
pub record RequestEvent : Type 0 where
  pub method : Bytes
  pub path : Bytes
  pub remote_ip : Bytes
  pub status : ℕ

-- The limiters of package ratelimit, the request log, and the state of the application.
pub record Server (W : Type 0) : Type 0 where
  pub login_client : ClientLimiter
  pub login_global : Bucket
  pub api_client : ClientLimiter
  pub requests : List RequestEvent
  pub app : W

-- A handler answers at an instant.
abbrev pub Handler : Type 0 → Type 0
Handler W = ℕ → Request → Server W → Answer × Server W

-- `logs.RequestLogger`: the request is recorded after it is answered, with the status.
unfoldable pub request_logger : {W : Type 0} → Handler W → Handler W
request_logger next now r s =
    let answered = next now r s in
    let event : RequestEvent = record {
      method = r.method;
      path = r.path;
      remote_ip = r.remote_addr;
      status = answered.0.status;
    } in
    (answered.0, record answered.1 { requests = answered.1.requests ++ (event ∷ []) })
