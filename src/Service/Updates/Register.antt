-- ===== src/Service/Updates/Register.antt =====
-- The overlay of one domain under a sequence of calls of `UpdateWAFMode`, as a register.
use caddy_waf_ui.Prelude.{◌≡◌, ◌⊎◌, inl, inr, refl, ap, ◌∙◌, Option, some, List, [], ◌∷◌, ◌++◌, ◌≢◌}
use caddy_waf_ui.Text.{Bytes, str}
use caddy_waf_ui.Errors.{Error, Result, ok, err}
use caddy_waf_ui.System.{World, Context, Action, ReloadStatus}
use caddy_waf_ui.System.Store.{lookup}
use caddy_waf_ui.System.Ends.{Holds}
use caddy_waf_ui.Logs.Trail.{or_unknown}
use caddy_waf_ui.Config.{Env, managed_dir, backup_dir}
use caddy_waf_ui.Domain.Model.{WafMode}
use caddy_waf_ui.Files.Naming.{backup_dir_path, waf_config_path}
use caddy_waf_ui.Service.Chain.{Reloader}
use caddy_waf_ui.Service.Chain.Outcome.{IsRestoreFailure, Applied, Refused, Rejected, IsAccepted}
use caddy_waf_ui.Service.Updates.{mode_snippet, mode_opts, update_waf_mode}
use caddy_waf_ui.Service.Updates.Modes.{ModeWritten, mode_fault, update_waf_mode-Applied}

-- A call, with the instant at which it comes and what Caddy then answers.
pub record ModeCall : Type 0 where
  pub mode : WafMode
  pub remote_ip : Bytes
  pub stamp : Bytes
  pub now : Bytes
  pub random : Bytes
  pub reloader : Reloader

abbrev pub context_of : Env → ModeCall → Context
context_of env call = record { env = env; stamp = call.stamp; now = call.now; random = call.random }

module _ (env : Env) (domain_name : Bytes) where
  -- The calls one after the other, as the lock of the chain orders them, with their results.
  unfoldable pub run_calls : List ModeCall → World → List (Result (Unit {0})) × World
  unfolding update_waf_mode
  run_calls [] w = ([], w)
  run_calls (call ∷ calls) w =
      let (r, v) =
        update_waf_mode call.reloader (context_of env call) domain_name call.mode call.remote_ip
          w in
      let (rs, u) = run_calls calls v in (r ∷ rs, u)

  -- The abstract view: the text of the overlay, if there is one, and the audit trail.
  pub record Register : Type 0 where
    pub content : Option Bytes
    pub trail : List Action

  abbrev pub view : World → Register
  view w = record {
    content = lookup (waf_config_path (managed_dir env) domain_name) w.disk;
    trail = w.trail;
  }

  -- The trail has one event more, of this kind.
  pub record Noted (event : Bytes) (call : ModeCall) (old new : Register) : Type 0 where
    pub status : ReloadStatus
    pub appended :
        new.trail
        ≡ old.trail
          ++ record {
            event = event;
            domain = domain_name;
            from = str "unknown";
            to = or_unknown call.mode;
            remote_ip = call.remote_ip;
            caddy_reload = status;
          }
            ∷ []

  abbrev FailureNoted : ModeCall → Register → Register → Type 0
  FailureNoted call old new =
      Noted (str "waf_mode_failed") call old new
      ⊎ Noted (str "waf_mode_changed_but_reload_failed") call old new

  -- The specification of one call with its result.
  pub data RegisterStep (call : ModeCall) (old : Register)
      : Result (Unit {0}) → Register → Type 0 where
    stores :
        (a : Unit {0}) (new : Register)
        → IsAccepted domain_name (mode_fault call.mode)
        → new.content ≡ some (mode_snippet (context_of env call) domain_name call.mode)
        → Noted (str "waf_mode_changed") call old new
        → RegisterStep call old (ok a) new
    refuses :
        (e : Error)
        → Rejected domain_name (mode_fault call.mode) e
        → RegisterStep call old (err e) old
    keeps :
        (e : Error) (new : Register)
        → IsAccepted domain_name (mode_fault call.mode)
        → new.content ≡ old.content
        → FailureNoted call old new
        → RegisterStep call old (err e) new
    loses :
        (e : Error) (new : Register)
        → IsAccepted domain_name (mode_fault call.mode)
        → IsRestoreFailure e
        → FailureNoted call old new
        → RegisterStep call old (err e) new

  -- The specification of a sequence of calls.
  pub data Runs : List ModeCall → Register → List (Result (Unit {0})) → Register → Type 0 where
    idle : (s : Register) → Runs [] s [] s
    next :
        {call : ModeCall} {calls : List ModeCall} {r : Result (Unit {0})}
        {rs : List (Result (Unit {0}))} {s t u : Register}
        → RegisterStep call s r t
        → Runs calls t rs u
        → Runs (call ∷ calls) s (r ∷ rs) u

  module _ (apart : managed_dir env ≢ backup_dir_path (backup_dir env) domain_name) where
    chain_failed :
        (call : ModeCall) (w v : World) (e : Error)
        → IsAccepted domain_name (mode_fault call.mode)
        → Refused domain_name call.remote_ip
            (mode_opts (context_of env call) domain_name call.mode call.remote_ip)
            (lookup (waf_config_path (managed_dir env) domain_name) w.disk)
            w.trail
            e
            v
        → RegisterStep call (view w) (err e) (view v)
    unfolding or_unknown
    chain_failed call w v e is refused =
        let noted : FailureNoted call (view w) (view v) = elim refused.recorded [
          | inl before ↦ inl (record { status = before.status; appended = before.appended })
          | inr after ↦ inr (record { status = after.status; appended = after.appended })
        ] in
        elim refused.kept [
          | inl lost ↦ loses e (view v) is lost noted
          | inr kept ↦ keeps e (view v) is kept noted
        ]

    result-RegisterStep :
        (call : ModeCall) (w v : World) (r : Result (Unit {0}))
        → Holds
            (λ a v.
              IsAccepted domain_name (mode_fault call.mode)
              × Applied domain_name call.remote_ip
                  (mode_opts (context_of env call) domain_name call.mode call.remote_ip)
                  (ModeWritten (context_of env call) domain_name call.mode)
                  w.trail
                  v)
            (λ e v.
              (Rejected domain_name (mode_fault call.mode) e × (v ≡ w))
              ⊎ (IsAccepted domain_name (mode_fault call.mode)
                  × Refused domain_name call.remote_ip
                      (mode_opts (context_of env call) domain_name call.mode call.remote_ip)
                      (lookup (waf_config_path (managed_dir env) domain_name) w.disk)
                      w.trail
                      e
                      v))
            r
            v
        → RegisterStep call (view w) r (view v)
    unfolding or_unknown
    result-RegisterStep call w v (ok a) (is, h) =
        stores a (view v) is h.good
          (record { status = h.recorded.status; appended = h.recorded.appended })
    result-RegisterStep call w v (err e) (inl (rejected, same)) = rw same (refuses e rejected)
    result-RegisterStep call w v (err e) (inr (is, refused)) = chain_failed call w v e is refused

    update_waf_mode-RegisterStep :
        (call : ModeCall) (w : World)
        → let (r, v) =
            update_waf_mode call.reloader
              (context_of env call)
              domain_name
              call.mode
              call.remote_ip
              w in
          RegisterStep call (view w) r (view v)
    update_waf_mode-RegisterStep call w =
        result-RegisterStep call w _ _
          (update_waf_mode-Applied call.reloader (context_of env call) domain_name call.remote_ip
            apart call.mode w).at

    -- Seen through the overlay and the audit trail, any sequence of calls of `UpdateWAFMode` for a
    -- domain is a run of the register. A call that returns without an error has a valid domain and mode,
    -- stores its snippet and adds the success event. One that returns the error of its validation
    -- leaves all as it was. One with a valid domain and mode that returns an error leaves the text, or
    -- its error is that of the restoration, and it adds one failure event. The overlays do not lie
    -- among the domain's snapshots.
    pub run_calls-Runs :
        (calls : List ModeCall) (w : World)
        → Runs calls (view w) (run_calls calls w).0 (view (run_calls calls w).1)
    unfolding run_calls
    run_calls-Runs [] w = idle (view w)
    run_calls-Runs (call ∷ calls) w = next (update_waf_mode-RegisterStep call w) (
        run_calls-Runs calls
          (update_waf_mode call.reloader (context_of env call) domain_name call.mode call.remote_ip
            w).1)

  -- The last of the snippets whose calls succeeded, or else what was there before.
  unfoldable pub settled : Option Bytes → List ModeCall → List (Result (Unit {0})) → Option Bytes
  settled c (call ∷ calls) (ok a ∷ rs) =
      settled (some (mode_snippet (context_of env call) domain_name call.mode)) calls rs
  settled c (call ∷ calls) (err e ∷ rs) = settled c calls rs
  settled c [] rs = c
  settled c (call ∷ calls) [] = c

  -- One of the results is the failure of a restoration.
  abbrev pub AnyLost : List (Result (Unit {0})) → Type 0
  AnyLost [] = ⊥
  AnyLost (ok a ∷ rs) = AnyLost rs
  AnyLost (err e ∷ rs) = IsRestoreFailure e ⊎ AnyLost rs

  after_err :
      (e : Error) (rs : List (Result (Unit {0}))) {c d : Option Bytes}
      → AnyLost rs ⊎ (c ≡ d)
      → AnyLost (err e ∷ rs) ⊎ (c ≡ d)
  after_err e rs (inl lost) = inl (inr lost)
  after_err e rs (inr same) = inr same

  started :
      (calls : List ModeCall) (rs : List (Result (Unit {0}))) {c d x : Option Bytes}
      → c ≡ d
      → AnyLost rs ⊎ (x ≡ settled c calls rs)
      → AnyLost rs ⊎ (x ≡ settled d calls rs)
  started calls rs same (inl lost) = inl lost
  started calls rs same (inr e) = inr (e ∙ ap (λ c. settled c calls rs) same)

  settled-Runs :
      (calls : List ModeCall) (s t : Register) (rs : List (Result (Unit {0})))
      → Runs calls s rs t
      → AnyLost rs ⊎ (t.content ≡ settled s.content calls rs)
  unfolding settled
  settled-Runs _ _ _ _ (idle s) = inr refl
  settled-Runs _ _ _ _ (next {calls = calls} {rs = rs} (stores a new is stored noted) runs) =
      started calls rs stored (settled-Runs _ _ _ _ runs)
  settled-Runs _ _ _ _ (next {rs = rs} (refuses e rejected) runs) =
      after_err e rs (settled-Runs _ _ _ _ runs)
  settled-Runs _ _ _ _ (next {calls = calls} {rs = rs} (keeps e new is kept noted) runs) =
      after_err e rs (started calls rs kept (settled-Runs _ _ _ _ runs))
  settled-Runs _ _ _ _ (next (loses e new is lost noted) runs) = inl (inl lost)

  -- After any sequence of calls of `UpdateWAFMode` for a domain, one of them reports that a
  -- restoration failed, or the overlay is the snippet of the last call that returned without an error,
  -- and what was there before, if every call returned one. The overlays do not lie among the domain's
  -- snapshots.
  pub run_calls-settled :
      managed_dir env ≢ backup_dir_path (backup_dir env) domain_name
      → (calls : List ModeCall) (w : World)
      → AnyLost (run_calls calls w).0
        ⊎ (lookup (waf_config_path (managed_dir env) domain_name) (run_calls calls w).1.disk
            ≡ settled
                (lookup (waf_config_path (managed_dir env) domain_name) w.disk)
                calls
                (run_calls calls w).0)
  run_calls-settled apart calls w =
      settled-Runs calls (view w) (view (run_calls calls w).1) (run_calls calls w).0
        (run_calls-Runs apart calls w)
