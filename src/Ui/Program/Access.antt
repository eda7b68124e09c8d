-- ===== src/Ui/Program/Access.antt =====
-- Who can change something through the handler of cmd/server/main.go.
use caddy_waf_ui.Prelude.{ℕ, ◌≡◌, ◌⊎◌, inl, inr, refl, true, false, not, arith, Bool-cases}
use caddy_waf_ui.Text.{str, beq}
use caddy_waf_ui.System.{World, Context}
use caddy_waf_ui.Config.{Env}
use caddy_waf_ui.Ratelimit.Bucket.{Verdict, granted, retry, allow_at}
use caddy_waf_ui.Ratelimit.Clients.{allow}
use caddy_waf_ui.Web.Http.{Request, Answer, Server, Handler}
use caddy_waf_ui.Web.Auth.{Mac, is_safe_method}
use caddy_waf_ui.Web.Limits.{limit_login, after_client, after_global, client_ip}
use caddy_waf_ui.Web.Guards.{Guarded, let_in, kept_out, HasSession, MayMutate, pages-Guarded}
use caddy_waf_ui.Web.Calls.{api-ApiCall, charged}
use caddy_waf_ui.Web.Stack.{
  Route, to_login, to_static, to_pages, to_api, to_health, to_subtree, route, pages, api, mux,
  build_handler, security_headers,
}
use caddy_waf_ui.Ui.Router.{new_router, api_route, health_handler}
use caddy_waf_ui.Ui.Pages.Serve.{new_pages_mux, new_login_mux, page_route}
use caddy_waf_ui.Ui.Pages.Viewing.{Viewed, Viewed-refl}
use caddy_waf_ui.Ui.Program.{Parts, static_handler, mounted, program}
use caddy_waf_ui.Ui.Program.Reading.{
  IsSafe-is_safe_method, IsReadRoute-api_route, IsView-serve, IsReadPage-page_route,
  IsView-serve_page,
}

-- A handler that leaves the application as it was.
abbrev pub Keeps : Handler World → Type 0
Keeps h = (now : ℕ) (r : Request) (s : Server World) → (h now r s).1.app ≡ s.app

-- A request that may change something: with an unsafe method, a session, and the bearer token or the
-- CSRF field.
pub record MayWrite (mac : Mac) (env : Env) (r : Request) : Type 0 where
  pub unsafe : is_safe_method r.method ≡ false
  pub session : HasSession env r
  pub allowed : MayMutate mac env r

Viewed-same : (w v : World) → v ≡ w → Viewed w v
Viewed-same w v e = rw e (Viewed-refl w)

-- A check that lets only such requests to a handler that views for the safe ones.
Guarded-Viewed :
    {Ok : Type 0} {refusals : ℕ → Type 0} {ran result : Answer × Server World} {before : World}
    (mac : Mac) (env : Env) (r : Request)
    → (Ok → HasSession env r × MayMutate mac env r)
    → (is_safe_method r.method ≡ true → Viewed before ran.1.app)
    → Guarded Ok refusals ran before result
    → Viewed before result.1.app ⊎ MayWrite mac env r
Guarded-Viewed {ran = ran} {before = before} mac env r may views
      (let_in {after = after} ok same effect) =
    elim (Bool-cases (is_safe_method r.method)) [
      | inl safe ↦ inl (rw effect (views safe))
      | inr unsafe ↦ inr (record { unsafe = unsafe; session = (may ok).0; allowed = (may ok).1 })
    ]
Guarded-Viewed {before = before} mac env r may views
      (kept_out {after = after} not_ok refusal kept) =
    inl (Viewed-same before after.app kept)

module _ (next : Handler World) (keeps : Keeps next) where
  after_global-Keeps :
      (now : ℕ) (r : Request) (s : Server World) (v : Verdict)
      → (after_global next now r s v).1.app ≡ s.app
  unfolding after_global
  after_global-Keeps now r s granted = keeps now r s
  after_global-Keeps now r s (retry seconds) = refl

  after_client-Keeps :
      (now : ℕ) (r : Request) (s : Server World) (v : Verdict)
      → (after_client next now r s v).1.app ≡ s.app
  unfolding after_client
  after_client-Keeps now r s granted =
      let global = allow_at s.login_global now in
      after_global-Keeps now r (record s { login_global = global.1 }) global.0
  after_client-Keeps now r s (retry seconds) = refl

  limit_login-Keeps : Keeps (limit_login next)
  unfolding limit_login
  limit_login-Keeps now r s =
      let client = allow s.login_client (client_ip r) now in
      elim (Bool-cases (not (beq r.method (str "POST")))) [
        | inl e ↦ rw e (keeps now r s)
        | inr e ↦ rw e (after_client-Keeps now r (record s { login_client = client.1 }) client.0)
      ]

new_login_mux-Keeps : (parts : Parts) (ctx : Context) → Keeps (mounted parts ctx).login_mux
unfolding new_login_mux
new_login_mux-Keeps parts ctx now r s = ground arith

static_handler-Keeps :
    (file_server : Handler World) → Keeps file_server → Keeps (static_handler file_server)
unfolding static_handler
static_handler-Keeps file_server keeps now r s = ground (arith, keeps now r s)

Route-cases :
    (x : Route)
    → (x ≡ to_login)
      ⊎ ((x ≡ to_static) ⊎ ((x ≡ to_pages) ⊎ ((x ≡ to_api) ⊎ ((x ≡ to_health) ⊎ (x ≡ to_subtree)))))
Route-cases to_login = inl refl
Route-cases to_static = inr (inl refl)
Route-cases to_pages = inr (inr (inl refl))
Route-cases to_api = inr (inr (inr (inl refl)))
Route-cases to_health = inr (inr (inr (inr (inl refl))))
Route-cases to_subtree = inr (inr (inr (inr (inr refl))))

module _ (parts : Parts) (ctx : Context) where
  login-Keeps : Keeps (limit_login (mounted parts ctx).login_mux)
  login-Keeps = limit_login-Keeps (mounted parts ctx).login_mux (new_login_mux-Keeps parts ctx)

  pages_mux-Viewed :
      (now : ℕ) (r : Request) (s : Server World)
      → is_safe_method r.method ≡ true
      → Viewed s.app ((mounted parts ctx).pages_mux now r s).1.app
  unfolding new_pages_mux
  pages_mux-Viewed now r s safe =
      let reads = IsReadPage-page_route r.method r.path (IsSafe-is_safe_method r.method safe) in
      (IsView-serve_page parts.sources parts.templates parts.reloader parts.net ctx
          (page_route r.method r.path) r reads).from
        s.app

  router-Viewed :
      (now : ℕ) (r : Request) (s : Server World)
      → is_safe_method r.method ≡ true
      → Viewed s.app ((mounted parts ctx).router now r s).1.app
  unfolding new_router
  router-Viewed now r s safe =
      let reads = IsReadRoute-api_route r.method r.path (IsSafe-is_safe_method r.method safe) in
      (IsView-serve parts.reloader parts.codec parts.net ctx (api_route r.method r.path) r
          reads).from
        s.app

  abbrev CanWrite : Request → Type 0
  CanWrite r = MayWrite parts.sources.mac ctx.env r

  pages-Access :
      (now : ℕ) (r : Request) (s : Server World)
      → Viewed s.app (pages parts.sources.mac ctx.env (mounted parts ctx) now r s).1.app
        ⊎ CanWrite r
  pages-Access now r s =
      Guarded-Viewed parts.sources.mac ctx.env r (λ both. both) (pages_mux-Viewed now r s)
        (pages-Guarded parts.sources.mac ctx.env (mounted parts ctx) now r s)

  api-Access :
      (now : ℕ) (r : Request) (s : Server World)
      → Viewed s.app (api ctx.env (mounted parts ctx) now r s).1.app ⊎ CanWrite r
  api-Access now r s = elim (api-ApiCall ctx.env (mounted parts ctx) now r s) [
    | inl (pass, guarded) ↦
        Guarded-Viewed parts.sources.mac ctx.env r
          (λ is_token. ((is_token.0, inr is_token.1), inr (inl is_token)))
          (router-Viewed now r (charged now r s)) guarded
    | inr (seconds, (denied, answer)) ↦ inl (rw answer (Viewed-refl s.app))
  ]

  -- Through the handler of the program, a request that is not a writing one, that is one with an
  -- unsafe method, a session, and the bearer token or the CSRF field of the configured token, changes
  -- no file and records no event of the audit trail, if the server of the embedded files leaves the
  -- application as it was.
  pub program-Access :
      Keeps parts.file_server
      → (now : ℕ) (r : Request) (s : Server World)
      → Viewed s.app (program parts ctx now r s).1.app ⊎ MayWrite parts.sources.mac ctx.env r
  unfolding program build_handler security_headers mux health_handler
  program-Access keeps now r s = elim (Route-cases (route r.path)) [
    | inl e ↦ rw (e, mux) (inl (Viewed-same s.app _ (login-Keeps now r s)))
    | inr (inl e) ↦
        rw (e, mux)
          (inl (Viewed-same s.app _ (static_handler-Keeps parts.file_server keeps now _ s)))
    | inr (inr (inl e)) ↦ rw (e, mux) (pages-Access now r s)
    | inr (inr (inr (inl e))) ↦ rw (e, mux) (api-Access now r s)
    | inr (inr (inr (inr (inl e)))) ↦ rw (e, mux) (inl (Viewed-refl s.app))
    | inr (inr (inr (inr (inr e)))) ↦ rw (e, mux) (inl (Viewed-refl s.app))
  ]
