-- ===== src/Service/Updates/Written.antt =====
-- The mutations of the entries: an overlay that is written or restored, or a recorded failure.
use caddy_waf_ui.Prelude.{◌≡◌, refl, Option, some, List}
use caddy_waf_ui.Text.{Bytes}
use caddy_waf_ui.Errors.{Error, Result, ok, err}
use caddy_waf_ui.System.{World, Context, Action, ReloadStatus, raise, ◌>>=◌}
use caddy_waf_ui.System.Store.{FilePath, lookup}
use caddy_waf_ui.System.Ends.{Ends, Ends-catch, Ends-logged, Ends-weaken}
use caddy_waf_ui.Logs.Trail.{log_action}
use caddy_waf_ui.Files.Writer.Atomic.{atomic_write-lookup, Quiet-atomic_write}
use caddy_waf_ui.Service.Chain.{fail_recorded}
use caddy_waf_ui.Service.Chain.Outcome.{Recorded}
use caddy_waf_ui.Service.Updates.{generate_and_write}

module _ (domain_name remote_ip event from fail_to : Bytes) (path : FilePath) (old : Option Bytes)
    (trail : List Action) where
  -- The overlay is as before, and the failure is recorded.
  abbrev pub Failed : World → Type 0
  Failed v = (lookup path v.disk ≡ old) × Recorded event domain_name from fail_to remote_ip trail v

  pub Ends-fail_recorded :
      {A : Type 0} (P : A → World → Type 0) (status : ReloadStatus) (e : Error) (v : World)
      → lookup path v.disk ≡ old
      → v.trail ≡ trail
      → Ends P (λ f u. Failed u) (fail_recorded domain_name remote_ip event from fail_to status e) v
  unfolding fail_recorded log_action raise ◌>>=◌
  Ends-fail_recorded P status e v h t = record {
    at = (h, record { status = status; appended = rw t });
  }

module _ (ctx : Context) (domain_name remote_ip event from fail_to : Bytes) (path : FilePath) where
  pub generate_and_write-Ends :
      (generated : Result Bytes) (w : World)
      → Ends
          (λ a v.
            (snippet : Bytes) × (generated ≡ ok snippet)
            × (lookup path v.disk ≡ some snippet)
            × (v.trail ≡ w.trail))
          (λ e v.
            Failed domain_name remote_ip event from fail_to path (lookup path w.disk) w.trail v)
          (generate_and_write ctx path
            (fail_recorded domain_name remote_ip event from fail_to)
            generated)
          w
  unfolding generate_and_write
  generate_and_write-Ends (err e) w = Ends-fail_recorded _ _ _ _ _ _ _ _ _ _ _ w refl refl
  generate_and_write-Ends (ok snippet) w =
      Ends-catch _ _ _ w
        (Ends-weaken _ _ _ w
          (Ends-logged _ w (Quiet-atomic_write ctx path snippet)
            (atomic_write-lookup ctx path snippet w))
          (λ a v h. (snippet, refl, h.0, h.1)) (λ e v h. h))
        (λ e v h. Ends-fail_recorded _ _ _ _ _ _ _ _ _ _ _ v h.0 h.1)
