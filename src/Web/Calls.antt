-- ===== src/Web/Calls.antt =====
-- The calls of the API behind `ratelimit.API` and `auth.Middleware`, as cmd/server/main.go mounts them.
use caddy_waf_ui.Prelude.{ℕ, ◌≡◌, ◌⊎◌, inl, inr, refl}
use caddy_waf_ui.Config.{Env}
use caddy_waf_ui.Ratelimit.Bucket.{Verdict, granted, retry}
use caddy_waf_ui.Ratelimit.Clients.{allow}
use caddy_waf_ui.Web.Http.{Request, Server, Handler, request_logger}
use caddy_waf_ui.Web.Auth.{bearer_token}
use caddy_waf_ui.Web.Limits.{client_ip, too_many_requests, after_api, limit_api}
use caddy_waf_ui.Web.Stack.{Muxes, api}
use caddy_waf_ui.Web.Guards.{Guarded, IsToken, bearer-Guarded, ran-Guarded}

Verdict-cases : (v : Verdict) → (v ≡ granted) ⊎ ((seconds : ℕ) × (v ≡ retry seconds))
Verdict-cases granted = inl refl
Verdict-cases (retry seconds) = inr (seconds, refl)

module _ {W : Type 0} where
  -- The limiter of the API after the request.
  abbrev pub charged : ℕ → Request → Server W → Server W
  charged now r s = record s { api_client = (allow s.api_client (client_ip r) now).1 }

  abbrev pub ApiCall : Env → Muxes W → ℕ → Request → Server W → Type 0
  ApiCall env muxes now r s =
      let verdict = (allow s.api_client (client_ip r) now).0 in
      ((verdict ≡ granted)
        × Guarded (IsToken env (bearer_token r)) (λ n. n ≡ 401)
            (muxes.router now r (charged now r s)) s.app (api env muxes now r s))
      ⊎ ((seconds : ℕ) × ((verdict ≡ retry seconds)
            × (api env muxes now r s ≡ (too_many_requests seconds, charged now r s))))

  pub api-ApiCall :
      (env : Env) (muxes : Muxes W) (now : ℕ) (r : Request) (s : Server W)
      → ApiCall env muxes now r s
  unfolding api limit_api after_api request_logger
  api-ApiCall env muxes now r s =
      let next : Handler W = request_logger muxes.router in
      elim (Verdict-cases (allow s.api_client (client_ip r) now).0) [
        | inl pass ↦ inl (
          pass,
          rw (pass, limit_api)
              (ran-Guarded {ran = next now r (charged now r s)}
                {ran' = muxes.router now r (charged now r s)} refl refl
                (bearer-Guarded env next now r (charged now r s))),
        )
        | inr (seconds, denied) ↦ inr (seconds, (denied, rw (denied, limit_api) refl))
      ]
