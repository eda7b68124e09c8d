-- ===== src/Web/Guards.antt =====
-- Who reaches the handlers behind the middlewares of cmd/server/main.go.
use mathlib.Core.Bool.{false≢true}
use caddy_waf_ui.Prelude.{
  ℕ, ◌≡◌, ◌≢◌, ◌⊎◌, ◌↔◌, inl, inr, refl, ap, ◌∙◌, Option, none, some, Bool, true, false, ◌||◌, [],
  ◌∷◌, if◌then◌else◌, arith, not, ◌&&◌, Bool-cases,
}
use caddy_waf_ui.Text.{Bytes, str, beq}
use caddy_waf_ui.Text.Laws.{beq_iff}
use caddy_waf_ui.Config.{Env, token}
use caddy_waf_ui.Web.Http.{Request, Answer, Server, Handler, request_logger, plain}
use caddy_waf_ui.Web.Auth.{
  Mac, token_matches, bearer_token, cookie_matches, has_valid_session, csrf_value, is_safe_method,
  session, csrf, require_bearer,
}
use caddy_waf_ui.Web.Stack.{Muxes, pages}

-- The text is the token, and one is configured.
abbrev pub IsToken : Env → Bytes → Type 0
IsToken env t = (token env ≢ []) × (t ≡ token env)

-- A session: the cookie or the bearer token is the token.
abbrev pub HasSession : Env → Request → Type 0
HasSession env r =
    (token env ≢ []) × ((r.session_cookie ≡ some (token env)) ⊎ (bearer_token r ≡ token env))

-- What lets a request change something: a safe method, the bearer token, or the CSRF field.
abbrev pub MayMutate : Mac → Env → Request → Type 0
MayMutate mac env r =
    (is_safe_method r.method ≡ true)
    ⊎ (IsToken env (bearer_token r)
        ⊎ ((token env ≢ [])
            × ((r.form (str "csrf") ≢ []) × (r.form (str "csrf") ≡ mac (token env) (str "csrf")))))

token_matches_iff : (env : Env) (t : Bytes) → (token_matches env t ≡ true) ↔ IsToken env t
unfolding token_matches
token_matches_iff env t =
    ground (arith, beq_iff (token env) [], beq_iff t [], beq_iff t (token env))

cookie_matches_iff :
    (env : Env) (cookie : Option Bytes)
    → (cookie_matches env cookie ≡ true) ↔ ((token env ≢ []) × (cookie ≡ some (token env)))
cookie_matches_iff env none = ground arith
cookie_matches_iff env (some value) = ground (arith, token_matches_iff env value)

pub has_valid_session_iff :
    (env : Env) (r : Request) → (has_valid_session env r ≡ true) ↔ HasSession env r
unfolding has_valid_session
has_valid_session_iff env r =
    ground (arith, cookie_matches_iff env r.session_cookie, token_matches_iff env (bearer_token r))

csrf_allows : Mac → Env → Request → Bool
csrf_allows mac env r =
    is_safe_method r.method
    || (token_matches env (bearer_token r)
        || (not (beq (token env) [])
            && (not (beq (r.form (str "csrf")) [])
                && beq (r.form (str "csrf")) (mac (token env) (str "csrf")))))

csrf_allows_iff :
    (mac : Mac) (env : Env) (r : Request) → (csrf_allows mac env r ≡ true) ↔ MayMutate mac env r
unfolding csrf_allows
csrf_allows_iff mac env r =
    let expected = mac (token env) (str "csrf") in
    ground (
      arith,
      token_matches_iff env (bearer_token r),
      beq_iff (token env) [],
      beq_iff (r.form (str "csrf")) [],
      beq_iff (r.form (str "csrf")) expected,
    )

abbrev login_redirect : Answer
login_redirect = record { status = 302; headers = (str "Location", str "/login") ∷ []; body = [] }

module _ {W : Type 0} where
  -- A handler behind a check: one that passes it gets the handler's answer and its effect on the
  -- application; another one has no effect on it and gets one of the refusals.
  pub data Guarded (Ok : Type 0) (refusals : ℕ → Type 0) (ran : Answer × Server W) (before : W)
      : Answer × Server W → Type 0 where
    let_in :
        {answer : Answer} {after : Server W}
        → Ok
        → answer ≡ ran.0
        → after.app ≡ ran.1.app
        → Guarded Ok refusals ran before (answer, after)
    kept_out :
        {answer : Answer} {after : Server W}
        → ¬ Ok
        → refusals answer.status
        → after.app ≡ before
        → Guarded Ok refusals ran before (answer, after)

  if-Guarded :
      {Ok : Type 0} {refusals : ℕ → Type 0} (b : Bool)
      → (b ≡ true) ↔ Ok
      → (next : Answer × Server W) (answer : Answer) (s : Server W) → refusals answer.status
      → Guarded Ok refusals next s.app (if b then next else (answer, s))
  if-Guarded true iff next answer s refusal = let_in (iff.0 refl) refl refl
  if-Guarded false iff next answer s refusal = kept_out (λ ok. false≢true (iff.1 ok)) refusal refl

  csrf-if :
      (mac : Mac) (env : Env) (next : Handler W) (now : ℕ) (r : Request) (s : Server W)
      → csrf mac env next now r s ≡ (if csrf_allows mac env r then next now r s else (plain 403, s))
  unfolding csrf csrf_value csrf_allows
  csrf-if mac env next now r s = ground arith

  csrf-Guarded :
      (mac : Mac) (env : Env) (next : Handler W) (now : ℕ) (r : Request) (s : Server W)
      → Guarded
          (MayMutate mac env r)
          (λ n. n ≡ 403)
          (next now r s)
          s.app
          (csrf mac env next now r s)
  csrf-Guarded mac env next now r s = rw (csrf-if mac env next now r s) (
      if-Guarded (csrf_allows mac env r) (csrf_allows_iff mac env r) (next now r s) (plain 403) s
        refl)

  session-if :
      (env : Env) (next : Handler W) (now : ℕ) (r : Request) (s : Server W)
      → session env next now r s
        ≡ (if has_valid_session env r then next now r s else (login_redirect, s))
  unfolding session
  session-if env next now r s = ground arith

  logged-Guarded :
      {Ok : Type 0} {refusals : ℕ → Type 0} {ran : Answer × Server W} (next : Handler W) (now : ℕ)
      (r : Request) (s : Server W)
      → Guarded Ok refusals ran s.app (next now r s)
      → Guarded Ok refusals ran s.app (request_logger next now r s)
  unfolding request_logger
  logged-Guarded next now r s guarded = elim guarded [
    | let_in ok same effect ↦ let_in ok same effect
    | kept_out not_ok refusal none_done ↦ kept_out not_ok refusal none_done
  ]

  Guarded-map :
      {Ok Ok' : Type 0} {refusals refusals' : ℕ → Type 0} {ran result : Answer × Server W}
      {before : W}
      → Ok ↔ Ok'
      → ((n : ℕ) → refusals n → refusals' n)
      → Guarded Ok refusals ran before result
      → Guarded Ok' refusals' ran before result
  Guarded-map iff more (let_in ok same effect) = let_in (iff.0 ok) same effect
  Guarded-map iff more (kept_out not_ok refusal none_done) =
      kept_out (λ ok. not_ok (iff.1 ok)) (more _ refusal) none_done

  -- The pages are served to a request with a session that is safe, or has the bearer token or the
  -- CSRF field of the configured token; any other is answered 302 or 403 and changes nothing in the
  -- application.
  pub pages-Guarded :
      (mac : Mac) (env : Env) (muxes : Muxes W) (now : ℕ) (r : Request) (s : Server W)
      → Guarded
          (HasSession env r × MayMutate mac env r)
          (λ n. (n ≡ 302) ⊎ (n ≡ 403))
          (muxes.pages_mux now r s)
          s.app
          (pages mac env muxes now r s)
  unfolding pages
  pages-Guarded mac env muxes now r s =
      let inner : Handler W = request_logger (csrf mac env muxes.pages_mux) in
      let checked =
        logged-Guarded (csrf mac env muxes.pages_mux) now r s
          (csrf-Guarded mac env muxes.pages_mux now r s) in
      elim (Bool-cases (has_valid_session env r)) [
        | inl valid ↦
            let has : HasSession env r = (has_valid_session_iff env r).0 valid in
            let result : session env inner now r s ≡ inner now r s =
              session-if env inner now r s
              ∙ ap (λ b. if b then inner now r s else (login_redirect, s)) valid in
            rw result (Guarded-map ((λ may. (has, may)), (λ both. both.1)) (λ n h. inr h) checked)
        | inr invalid ↦
            let result : session env inner now r s ≡ (login_redirect, s) =
              session-if env inner now r s
              ∙ ap (λ b. if b then inner now r s else (login_redirect, s)) invalid in
            rw result (
              kept_out
                (λ both. absurd (ground (arith, invalid, (has_valid_session_iff env r).1 both.0)))
                (inl refl) refl)
      ]

  pub ran-Guarded :
      {Ok : Type 0} {refusals : ℕ → Type 0} {ran ran' result : Answer × Server W} {before : W}
      → ran.0 ≡ ran'.0
      → ran.1.app ≡ ran'.1.app
      → Guarded Ok refusals ran before result
      → Guarded Ok refusals ran' before result
  ran-Guarded e f (let_in ok same effect) = let_in ok (same ∙ e) (effect ∙ f)
  ran-Guarded e f (kept_out not_ok refusal none_done) = kept_out not_ok refusal none_done

  pub bearer-Guarded :
      (env : Env) (next : Handler W) (now : ℕ) (r : Request) (s : Server W)
      → Guarded
          (IsToken env (bearer_token r))
          (λ n. n ≡ 401)
          (next now r s)
          s.app
          (require_bearer env next now r s)
  unfolding require_bearer
  bearer-Guarded env next now r s =
      let as_if : require_bearer env next now r s
          ≡ (if token_matches env (bearer_token r) then next now r s else (plain 401, s)) =
        ground arith in
      rw as_if (
        if-Guarded (token_matches env (bearer_token r)) (token_matches_iff env (bearer_token r))
          (next now r s) (plain 401) s refl)
