-- ===== src/Web/Limits.antt =====
-- The middlewares `Login` and `API` of internal/ratelimit/ratelimit.go.
use caddy_waf_ui.Prelude.{ℕ, Option, none, some, Bool, not, ◌||◌, [], ◌∷◌, ◌==◌, if◌then◌else◌, any}
use caddy_waf_ui.Text.{Bytes, str, beq, cut}
use caddy_waf_ui.Waf.Exclusions.{decimal_text}
use caddy_waf_ui.Ratelimit.Bucket.{Verdict, granted, retry, new_bucket, allow_at}
use caddy_waf_ui.Ratelimit.Clients.{new_client, allow}
use caddy_waf_ui.Web.Http.{Request, Answer, Server, Handler}

-- `loginClient`, `loginGlobal` and `apiClient` as the program starts.
unfoldable pub start_server : {W : Type 0} → ℕ → W → Server W
unfolding new_client
start_server now app = record {
  login_client = new_client 5 5;
  login_global = new_bucket 60 60 now;
  api_client = new_client 120 30;
  requests = [];
  app = app;
}

abbrev holds : ℕ → Bytes → Bool
holds c = any (λ x. x == c)

-- The host of "host:port" or "[host]:port" for net.SplitHostPort; the brackets are dropped.
abbrev port_only : Bytes → Bytes → Option Bytes
port_only host port =
    if holds b':' port || (holds b'[' port || holds b']' port) then none else some host

abbrev after_bracket : Bytes → Option Bytes → Option Bytes
after_bracket host none = none
after_bracket host (some []) = none
after_bracket host (some (c ∷ port)) =
    if holds b'[' host || not (c == b':') then none else port_only host port

abbrev after_colon : Bytes → Option Bytes → Option Bytes
after_colon host none = none
after_colon host (some port) =
    if holds b'[' host || holds b']' host then none else port_only host port

unfoldable pub split_host : Bytes → Option Bytes
unfolding cut
split_host [] = none
split_host (c ∷ cs) =
    if c == b'['
    then (let parts = cut b']' cs in after_bracket parts.0 parts.1)
    else (let parts = cut b':' (c ∷ cs) in after_colon parts.0 parts.1)

unfoldable pub client_ip : Request → Bytes
unfolding split_host
client_ip r = elim (split_host r.remote_addr) [ some host ↦ host | none ↦ r.remote_addr ]

-- With the two headers and the newline that http.Error adds.
unfoldable pub too_many_requests : ℕ → Answer
unfolding decimal_text
too_many_requests seconds = record {
  status = 429;
  headers =
      (str "Retry-After", decimal_text seconds)
      ∷ ((str "Content-Type", str "text/plain; charset=utf-8")
          ∷ ((str "X-Content-Type-Options", str "nosniff") ∷ []));
  body = str "too many requests, retry later\n";
}

module _ {W : Type 0} where
  unfoldable pub after_global : Handler W → ℕ → Request → Server W → Verdict → Answer × Server W
  unfolding too_many_requests
  after_global next now r s granted = next now r s
  after_global next now r s (retry seconds) = (too_many_requests seconds, s)

  unfoldable pub after_client : Handler W → ℕ → Request → Server W → Verdict → Answer × Server W
  unfolding allow_at after_global too_many_requests
  after_client next now r s granted =
      let global = allow_at s.login_global now in
      after_global next now r (record s { login_global = global.1 }) global.0
  after_client next now r s (retry seconds) = (too_many_requests seconds, s)

  unfoldable pub limit_login : Handler W → Handler W
  unfolding allow client_ip after_client
  limit_login next now r s =
      let client = allow s.login_client (client_ip r) now in
      if not (beq r.method (str "POST"))
      then next now r s
      else after_client next now r (record s { login_client = client.1 }) client.0

  unfoldable pub after_api : Handler W → ℕ → Request → Server W → Verdict → Answer × Server W
  unfolding too_many_requests
  after_api next now r s granted = next now r s
  after_api next now r s (retry seconds) = (too_many_requests seconds, s)

  unfoldable pub limit_api : Handler W → Handler W
  unfolding allow client_ip after_api
  limit_api next now r s =
      let client = allow s.api_client (client_ip r) now in
      after_api next now r (record s { api_client = client.1 }) client.0
