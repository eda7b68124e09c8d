-- ===== src/Ui/Program/Modes.antt =====
-- What the handler of cmd/server/main.go answers to a request for a mode through the API.
use caddy_waf_ui.Prelude.{ℕ, ◌≡◌, ◌⊎◌, inl, inr, refl, ap, ◌∙◌}
use caddy_waf_ui.Text.{Bytes}
use caddy_waf_ui.Errors.{Error}
use caddy_waf_ui.System.{World, Context}
use caddy_waf_ui.System.Unmarked.{Unmarked}
use caddy_waf_ui.Service.Updates.Modes.{Apart}
use caddy_waf_ui.Web.Http.{Request, Answer, Server}
use caddy_waf_ui.Web.Auth.{bearer_token}
use caddy_waf_ui.Web.Guards.{Guarded, let_in, kept_out, IsToken}
use caddy_waf_ui.Web.Calls.{api-ApiCall, charged}
use caddy_waf_ui.Web.Stack.{to_api, route, mux, build_handler, security_headers}
use caddy_waf_ui.Ui.Router.{set_mode, found, api_route, serve, new_router}
use caddy_waf_ui.Ui.Api.{handle_set_mode}
use caddy_waf_ui.Ui.Api.Endings.{Ended, turned_down, applied, failed, unread, unread_long}
use caddy_waf_ui.Ui.Api.Modes.{
  BadMode, mode_unread, mode_domain, mode_unknown, ModeApplied, ModeLost, handle_set_mode-Ended,
}
use caddy_waf_ui.Ui.Program.{Parts, mounted, program}

-- The status of an answer that has changed nothing: the body, the domain or the mode is bad, the body
-- is too long, the token is missing, or the client asks too often.
abbrev pub IsRefusal : ℕ → Type 0
IsRefusal n = (n ≡ 400) ⊎ ((n ≡ 413) ⊎ ((n ≡ 401) ⊎ (n ≡ 429)))

module _ (parts : Parts) (ctx : Context) (d : Bytes) (reloads : Unmarked parts.reloader.run)
    (apart : Apart ctx d) where
  -- What the status of an answer tells about the application.
  pub data Told (r : Request) (w : World) : ℕ → World → Type 0 where
    told_applied :
        (v : World)
        → IsToken ctx.env (bearer_token r)
        → ModeApplied parts.reloader parts.codec parts.net ctx d r reloads apart w v
        → Told r w 200 v
    told_lost :
        (e : Error) (v : World)
        → IsToken ctx.env (bearer_token r)
        → ModeLost parts.reloader parts.codec parts.net ctx d r reloads apart w e v
        → Told r w 500 v
    told_refused : (n : ℕ) (v : World) → IsRefusal n → v ≡ w → Told r w n v

  BadMode-IsRefusal : (r : Request) (a : Answer) → BadMode parts.codec d r a → IsRefusal a.status
  BadMode-IsRefusal r _ (mode_unread _ unread) = inl refl
  BadMode-IsRefusal r _ (mode_unread _ (unread_long h)) = inr (inl refl)
  BadMode-IsRefusal r _ (mode_domain fault h) = inl refl
  BadMode-IsRefusal r _ (mode_unknown mode read h) = inl refl

  Ended-Told :
      (r : Request) (w : World) (ran : Answer × World)
      → IsToken ctx.env (bearer_token r)
      → Ended
          (BadMode parts.codec d r)
          (ModeApplied parts.reloader parts.codec parts.net ctx d r reloads apart w)
          (ModeLost parts.reloader parts.codec parts.net ctx d r reloads apart w)
          w
          ran
      → Told r w ran.0.status ran.1
  Ended-Told r w _ is_token (turned_down a bad) =
      told_refused a.status w (BadMode-IsRefusal r a bad) refl
  Ended-Told r w _ is_token (applied v good) = told_applied v is_token good
  Ended-Told r w _ is_token (failed text e v lost) = told_lost e v is_token lost

  router-mode :
      (now : ℕ) (r : Request) (s : Server World)
      → api_route r.method r.path ≡ found set_mode d
      → let ran = (mounted parts ctx).router now r s in
        let direct = handle_set_mode parts.reloader parts.codec parts.net ctx d r s.app in
        (ran.0 ≡ direct.0) × (ran.1.app ≡ direct.1)
  unfolding new_router serve
  router-mode now r s e = rw (e, new_router, serve) (refl, refl)

  Guarded-Told :
      (now : ℕ) (r : Request) (s : Server World) (result : Answer × Server World)
      → api_route r.method r.path ≡ found set_mode d
      → Guarded
          (IsToken ctx.env (bearer_token r))
          (λ n. n ≡ 401)
          ((mounted parts ctx).router now r (charged now r s))
          s.app
          result
      → Told r s.app result.0.status result.1.app
  Guarded-Told now r s _ e (let_in {answer = answer} {after = after} is_token same effect) =
      let as_mode = router-mode now r (charged now r s) e in
      rw (ap (λ a. a.status) (same ∙ as_mode.0), effect ∙ as_mode.1)
        (Ended-Told r s.app _ is_token
          (handle_set_mode-Ended parts.reloader parts.codec parts.net ctx d r reloads apart s.app))
  Guarded-Told now r s _ e (kept_out {answer = answer} {after = after} not_ok refusal kept) =
      told_refused answer.status after.app (inr (inr (inl refusal))) kept

  -- What the program answers to a request that its muxes take to `HandleSetMode` tells what has
  -- happened. With status 200 the request had the token, and the overlay is the generated snippet of
  -- the mode in its body, with the success event; with status 500 it had the token, and the overlay is
  -- as before, or its restoration failed, with a failure event; every other status is 400, 401, 413 or
  -- 429, and nothing has changed in the application. The reload has no error that the handlers look
  -- for, and the overlays do not lie among the snapshots of the domain.
  pub program-Told :
      (now : ℕ) (r : Request) (s : Server World)
      → route r.path ≡ to_api
      → api_route r.method r.path ≡ found set_mode d
      → Told r s.app (program parts ctx now r s).0.status (program parts ctx now r s).1.app
  unfolding program build_handler security_headers
  program-Told now r s e f =
      rw (e, mux)
        (elim (api-ApiCall ctx.env (mounted parts ctx) now r s) [
          | inl (pass, guarded) ↦ Guarded-Told now r s _ f guarded
          | inr (seconds, (denied, answer)) ↦
              rw answer (told_refused 429 s.app (inr (inr (inr refl))) refl)
        ])
