-- ===== src/Service/Chain/Restore.antt =====
-- Reading the previous state of an overlay, and restoring it.
use caddy_waf_ui.Prelude.{
  ◌≡◌, inl, inr, refl, sym, Option, none, some, arith, if◌then◌else◌, Option-cases,
}
use caddy_waf_ui.Text.{Bytes}
use caddy_waf_ui.Errors.{Error, not_exist}
use caddy_waf_ui.System.{World, Context, pure, raise}
use caddy_waf_ui.System.Store.{FilePath, path_eq_iff, lookup, lookup-delete}
use caddy_waf_ui.System.Calls.{remove}
use caddy_waf_ui.System.Frame.{Quiet, quiet_rules, Quiet-catch, Quiet-remove}
use caddy_waf_ui.System.Ends.{
  Ends, Ends-pure, Ends-raise, Ends-bind, Ends-catch, Ends-call, Ends-weaken, Ends-read_file,
}
use caddy_waf_ui.Files.Writer.Atomic.{Elsewhere, atomic_write-lookup, Quiet-atomic_write}
use caddy_waf_ui.Files.Backup.{is_not_exist}
use caddy_waf_ui.Service.Chain.{read_previous_state, restore_state}

pub read_previous_state-eq :
    (p : FilePath) (w : World)
    → Ends
        (λ previous v. (previous ≡ lookup p w.disk) × (v.disk ≡ w.disk) × (v.trail ≡ w.trail))
        (λ e v. (v.disk ≡ w.disk) × (v.trail ≡ w.trail))
        (read_previous_state p)
        w
unfolding read_previous_state
read_previous_state-eq p w =
    Ends-catch
      (λ e v. (e ≡ not_exist → lookup p w.disk ≡ none) × (v.disk ≡ w.disk) × (v.trail ≡ w.trail)) _
      _ w
      (Ends-bind _ _ _ w (Ends-read_file p w)
        (λ content v h. Ends-pure (some content) v (sym h.0, h.1, h.2)))
      (λ e v h. missing_or_raised e v h)
  where
    missing_or_raised :
        (e : Error) (v : World)
        → (e ≡ not_exist → lookup p w.disk ≡ none) × (v.disk ≡ w.disk) × (v.trail ≡ w.trail)
        → Ends
            (λ previous u. (previous ≡ lookup p w.disk) × (u.disk ≡ w.disk) × (u.trail ≡ w.trail))
            (λ f u. (u.disk ≡ w.disk) × (u.trail ≡ w.trail))
            (if is_not_exist e then pure none else raise e)
            v
    missing_or_raised not_exist v h = Ends-pure none v (sym (h.0 refl), h.1, h.2)
    missing_or_raised _ v h = Ends-raise _ v (h.1, h.2)

removed_or_missing :
    (p : FilePath) (w : World)
    → Ends
        (λ a v. lookup p v.disk ≡ none)
        (λ e v. e ≡ not_exist → lookup p v.disk ≡ none)
        (remove p)
        w
unfolding remove
removed_or_missing p w =
    Ends-call _ _ w
      (λ os. record {
        at = elim (Option-cases (lookup p w.disk)) [
          | inl gone ↦ rw gone (λ e. gone)
          | inr (content, there) ↦
              rw there (ground (arith, lookup-delete p p w.disk, path_eq_iff p p))
        ];
      })
      (λ os n e. absurd (cc))

-- A restoration that succeeds gives the overlay its previous state back.
pub restore_state-eq :
    (ctx : Context) (p : FilePath) (previous : Option Bytes) (w : World)
    → Ends (λ a v. lookup p v.disk ≡ previous) (λ e v. Unit) (restore_state ctx p previous) w
unfolding restore_state
restore_state-eq ctx p (some content) w =
    Ends-weaken _ _ _ w (atomic_write-lookup ctx p content w) (λ a v h. h) (λ e v h. tt)
restore_state-eq ctx p none w =
    Ends-catch (λ e v. e ≡ not_exist → lookup p v.disk ≡ none) _ _ w (removed_or_missing p w)
      (λ e v h. missing_is_fine e v h)
  where
    missing_is_fine :
        (e : Error) (v : World)
        → (e ≡ not_exist → lookup p v.disk ≡ none)
        → Ends
            (λ a u. lookup p u.disk ≡ none)
            (λ f u. Unit)
            (if is_not_exist e then pure tt else raise e)
            v
    missing_is_fine not_exist v h = Ends-pure tt v (h refl)
    missing_is_fine _ v h = Ends-raise _ v tt

-- It touches no other file than the overlay and its temporary file, and logs nothing.
pub Quiet-restore_state :
    (ctx : Context) (p : FilePath) (previous : Option Bytes)
    → Quiet (Elsewhere ctx p) (restore_state ctx p previous)
unfolding restore_state
Quiet-restore_state ctx p (some content) = Quiet-atomic_write ctx p content
Quiet-restore_state ctx p none =
    Quiet-catch _ _ (Quiet-remove p (λ q k. k.not_target)) (λ e. search quiet_rules)
