-- ===== src/System/Stable.antt =====
-- Steps that change no byte of a file, though they may remove it.
use caddy_waf_ui.Prelude.{
  ◌≡◌, ◌⊎◌, inl, inr, refl, ◌∙◌, Bool, true, false, Option, none, arith, if◌then◌else◌,
}
use caddy_waf_ui.Text.{Bytes}
use caddy_waf_ui.Errors.{Error, Stage, wrapped, Result, ok, err}
use caddy_waf_ui.System.{World, Exec, raise, continue, handled, finally, catch, wrap, ◌>>=◌}
use caddy_waf_ui.System.Store.{FilePath, lookup, lookup-delete}
use caddy_waf_ui.System.Calls.{remove}
use caddy_waf_ui.System.Frame.{Quiet}
use caddy_waf_ui.System.Ends.{Ends, Holds-both}

module _ (q : FilePath) (content : Option Bytes) where
  -- The file has the content, or it is gone.
  abbrev pub Still : World → Type 0
  Still w = (lookup q w.disk ≡ content) ⊎ (lookup q w.disk ≡ none)

  pub record Stable {A : Type 0} (m : Exec A) : Type 0 where
    pub keeps : (w : World) → Still w → Still (m w).1

  same-Still : (w v : World) → lookup q v.disk ≡ lookup q w.disk → Still w → Still v
  same-Still w v same (inl e) = inl (same ∙ e)
  same-Still w v same (inr e) = inr (same ∙ e)

  pub Stable-same :
      {A : Type 0} (m : Exec A) → ((w : World) → lookup q (m w).1.disk ≡ lookup q w.disk) → Stable m
  Stable-same m same = record { keeps = λ w. same-Still w (m w).1 (same w) }

  pub Stable-Quiet :
      {A : Type 0} {Kept : FilePath → Type 0} (m : Exec A) → Quiet Kept m → Kept q → Stable m
  Stable-Quiet m quiet k = Stable-same m (λ w. quiet.disk w q k)

  pub Stable-if :
      {A : Type 0} (b : Bool) (m n : Exec A) → Stable m → Stable n → Stable (if b then m else n)
  Stable-if true m n h k = h
  Stable-if false m n h k = k

  continue-Still :
      {A B : Type 0} (r : Result A) (f : A → Exec B) (w : World)
      → ((a : A) → Stable (f a))
      → Still w
      → Still (continue r f w).1
  continue-Still (ok a) f w h s = (h a).keeps w s
  continue-Still (err e) f w h s = s

  pub Stable-bind :
      {A B : Type 0} (m : Exec A) (f : A → Exec B)
      → Stable m
      → ((a : A) → Stable (f a))
      → Stable (m >>= f)
  unfolding ◌>>=◌
  Stable-bind m f h k = record { keeps = λ w s. continue-Still (m w).0 f (m w).1 k (h.keeps w s) }

  pub Stable-finally :
      {A B : Type 0} (m : Exec A) (f : Result A → Exec B)
      → Stable m
      → ((r : Result A) → Stable (f r))
      → Stable (finally m f)
  unfolding finally
  Stable-finally m f h k = record { keeps = λ w s. (k (m w).0).keeps (m w).1 (h.keeps w s) }

  handled-Still :
      {A : Type 0} (r : Result A) (f : Error → Exec A) (w : World)
      → ((e : Error) → Stable (f e))
      → Still w
      → Still (handled r f w).1
  handled-Still (ok a) f w h s = s
  handled-Still (err e) f w h s = (h e).keeps w s

  pub Stable-catch :
      {A : Type 0} (m : Exec A) (f : Error → Exec A)
      → Stable m
      → ((e : Error) → Stable (f e))
      → Stable (catch m f)
  unfolding catch
  Stable-catch m f h k = record { keeps = λ w s. handled-Still (m w).0 f (m w).1 k (h.keeps w s) }

  pub Stable-wrap : {A : Type 0} (stage : Stage) (m : Exec A) → Stable m → Stable (wrap stage m)
  unfolding wrap raise
  Stable-wrap stage m h =
      Stable-catch m (λ e. raise (wrapped stage e)) h (λ e. Stable-same _ (λ w. refl))

  remove-Still :
      (p : FilePath) (w : World)
      → (lookup q (remove p w).1.disk ≡ lookup q w.disk) ⊎ (lookup q (remove p w).1.disk ≡ none)
  unfolding remove
  remove-Still p w = ground (arith, lookup-delete p q w.disk)

  pub Stable-remove : (p : FilePath) → Stable (remove p)
  Stable-remove p = record {
    keeps = λ w s. elim (remove-Still p w) [
      | inl same ↦ same-Still w (remove p w).1 same s
      | inr gone ↦ inr gone
    ];
  }

  -- Whatever a stable step returns, the file has its content then or is gone.
  pub Ends-Stable :
      {A : Type 0} (m : Exec A) (w : World)
      → Stable m
      → Still w
      → Ends (λ a v. Still v) (λ e v. Still v) m w
  Ends-Stable m w h s = record { at = Holds-both (λ v. Still v) (m w).0 (m w).1 (h.keeps w s) }
