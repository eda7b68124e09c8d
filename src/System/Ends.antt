-- ===== src/System/Ends.antt =====
-- Postconditions of steps, one for a returned value and one for an error.
use caddy_waf_ui.Prelude.{ℕ, List, none, some, inl, inr, Option-cases, ◌≡◌, refl, ◌∙◌, Option}
use caddy_waf_ui.Text.{Bytes}
use caddy_waf_ui.Errors.{Stage, Error, not_exist, os_failure, wrapped, Result, ok, err}
use caddy_waf_ui.System.{
  World, Action, Outcome, works, fails, Exec, pure, raise, lift, ◌>>=◌, continue, finally, handled,
  catch, wrap,
}
use caddy_waf_ui.System.Store.{FilePath, lookup}
use caddy_waf_ui.System.Frame.{Quiet, Returns}
use caddy_waf_ui.System.Calls.{call, settled, next_outcome, later_outcomes, read_file}

abbrev pub Holds :
    {A : Type 0} → (A → World → Type 0) → (Error → World → Type 0) → Result A → World → Type 0
Holds P E (ok a) w = P a w
Holds P E (err e) w = E e w

pub record Ends {A : Type 0} (P : A → World → Type 0) (E : Error → World → Type 0) (m : Exec A)
    (w : World) : Type 0 where
  pub at : Holds P E (m w).0 (m w).1

module _ {A : Type 0} (P : A → World → Type 0) (E : Error → World → Type 0) where
  Holds-weaken :
      (P' : A → World → Type 0) (E' : Error → World → Type 0) (r : Result A) (w : World)
      → Holds P' E' r w
      → ((a : A) → P' a w → P a w)
      → ((e : Error) → E' e w → E e w)
      → Holds P E r w
  Holds-weaken P' E' (ok a) w h p e = p a h
  Holds-weaken P' E' (err f) w h p e = e f h

module _ {A : Type 0} {P : A → World → Type 0} {E : Error → World → Type 0} where
  pub Ends-pure : (a : A) (w : World) → P a w → Ends P E (pure a) w
  unfolding pure
  Ends-pure a w h = record { at = h }

  pub Ends-raise : (e : Error) (w : World) → E e w → Ends P E (raise e) w
  unfolding raise
  Ends-raise e w h = record { at = h }

  pub Ends-weaken :
      (P' : A → World → Type 0) (E' : Error → World → Type 0) (m : Exec A) (w : World)
      → Ends P' E' m w
      → ((a : A) (v : World) → P' a v → P a v)
      → ((e : Error) (v : World) → E' e v → E e v)
      → Ends P E m w
  Ends-weaken P' E' m w h p e = record {
    at = Holds-weaken P E P' E' (m w).0 (m w).1 h.at (λ a. p a (m w).1) (λ f. e f (m w).1);
  }

  handled-Holds :
      (Q : Error → World → Type 0) (f : Error → Exec A) (r : Result A) (w : World)
      → Holds P Q r w
      → ((e : Error) (v : World) → Q e v → Ends P E (f e) v)
      → Holds P E (handled r f w).0 (handled r f w).1
  handled-Holds Q f (ok a) w h k = h
  handled-Holds Q f (err e) w h k = (k e w h).at

  pub Ends-catch :
      (Q : Error → World → Type 0) (m : Exec A) (f : Error → Exec A) (w : World)
      → Ends P Q m w
      → ((e : Error) (v : World) → Q e v → Ends P E (f e) v)
      → Ends P E (catch m f) w
  unfolding catch
  Ends-catch Q m f w h k = record { at = handled-Holds Q f (m w).0 (m w).1 h.at k }

  pub Ends-wrap :
      (stage : Stage) (Q : Error → World → Type 0) (m : Exec A) (w : World)
      → Ends P Q m w
      → ((e : Error) (v : World) → Q e v → E (wrapped stage e) v)
      → Ends P E (wrap stage m) w
  unfolding wrap
  Ends-wrap stage Q m w h k =
      Ends-catch Q m (λ e. raise (wrapped stage e)) w h (λ e v q. record { at = k e v q })

module _ {A B : Type 0} {P : B → World → Type 0} {E : Error → World → Type 0} where
  continue-Holds :
      (Q : A → World → Type 0) (f : A → Exec B) (r : Result A) (w : World)
      → Holds Q E r w
      → ((a : A) (v : World) → Q a v → Ends P E (f a) v)
      → Holds P E (continue r f w).0 (continue r f w).1
  continue-Holds Q f (ok a) w h k = (k a w h).at
  continue-Holds Q f (err e) w h k = h

  pub Ends-bind :
      (Q : A → World → Type 0) (m : Exec A) (f : A → Exec B) (w : World)
      → Ends Q E m w
      → ((a : A) (v : World) → Q a v → Ends P E (f a) v)
      → Ends P E (m >>= f) w
  unfolding ◌>>=◌
  Ends-bind Q m f w h k = record { at = continue-Holds Q f (m w).0 (m w).1 h.at k }

  finally-Holds :
      (Q : A → World → Type 0) (F : Error → World → Type 0) (f : Result A → Exec B) (r : Result A)
      (w : World)
      → Holds Q F r w
      → ((a : A) (v : World) → Q a v → Ends P E (f (ok a)) v)
      → ((e : Error) (v : World) → F e v → Ends P E (f (err e)) v)
      → Holds P E (f r w).0 (f r w).1
  finally-Holds Q F f (ok a) w h k l = (k a w h).at
  finally-Holds Q F f (err e) w h k l = (l e w h).at

  pub Ends-finally :
      (Q : A → World → Type 0) (F : Error → World → Type 0) (m : Exec A) (f : Result A → Exec B)
      (w : World)
      → Ends Q F m w
      → ((a : A) (v : World) → Q a v → Ends P E (f (ok a)) v)
      → ((e : Error) (v : World) → F e v → Ends P E (f (err e)) v)
      → Ends P E (finally m f) w
  unfolding finally
  Ends-finally Q F m f w h k l = record { at = finally-Holds Q F f (m w).0 (m w).1 h.at k l }

pub Holds-both :
    {A : Type 0} (Q : World → Type 0) (r : Result A) (w : World)
    → Q w
    → Holds (λ a v. Q v) (λ e v. Q v) r w
Holds-both Q (ok a) w h = h
Holds-both Q (err e) w h = h

-- A quiet step keeps what a kept file Holds, and how the trail stands.
module _ {A : Type 0} {Kept : FilePath → Type 0} where
  pub Ends-Quiet :
      (q : FilePath) (content : Option Bytes) (m : Exec A) (w : World)
      → Quiet Kept m
      → Kept q
      → lookup q w.disk ≡ content
      → Ends (λ a v. lookup q v.disk ≡ content) (λ e v. lookup q v.disk ≡ content) m w
  Ends-Quiet q content m w quiet k h = record {
    at = Holds-both (λ v. lookup q v.disk ≡ content) (m w).0 (m w).1 (quiet.disk w q k ∙ h);
  }

Holds-Returns :
    {A : Type 0} (t : A) (Q : World → Type 0) (r : Result A) (w : World)
    → Returns t r
    → Q w
    → Holds (λ a v. (a ≡ t) × Q v) (λ e v. Q v) r w
Holds-Returns t Q (ok a) w e h = (e, h)
Holds-Returns t Q (err f) w e h = h

-- The same for a step that can return one value only.
pub Ends-Returns :
    {A : Type 0} {Kept : FilePath → Type 0} (t : A) (q : FilePath) (content : Option Bytes)
    (m : Exec A) (w : World)
    → Returns t (m w).0
    → Quiet Kept m
    → Kept q
    → lookup q w.disk ≡ content
    → Ends (λ a v. (a ≡ t) × (lookup q v.disk ≡ content)) (λ e v. lookup q v.disk ≡ content) m w
Ends-Returns t q content m w only quiet k h = record {
  at = Holds-Returns t (λ v. lookup q v.disk ≡ content) (m w).0 (m w).1 only (quiet.disk w q k ∙ h);
}

-- A call is judged in both outcomes, in the world with some outcomes left.
module _ {A : Type 0} {P : A → World → Type 0} {E : Error → World → Type 0} where
  settled-Holds :
      (good : Exec A) (bad : ℕ → World → World) (o : Outcome) (v : World)
      → Ends P E good v
      → ((n : ℕ) → E os_failure (bad n v))
      → Holds P E (settled good bad o v).0 (settled good bad o v).1
  settled-Holds good bad works v g b = g.at
  settled-Holds good bad (fails n) v g b = b n

  pub Ends-call :
      (good : Exec A) (bad : ℕ → World → World) (w : World)
      → ((os : List Outcome) → Ends P E good (record w { outcomes = os }))
      → ((os : List Outcome) (n : ℕ) → E os_failure (bad n (record w { outcomes = os })))
      → Ends P E (call good bad) w
  Ends-call good bad w g b = record {
    at =
        let os = later_outcomes w.outcomes in
        settled-Holds good bad (next_outcome w.outcomes) (record w { outcomes = os }) (g os) (b os);
  }

-- What a quiet step keeps: one file, and the trail.
pub record Steady (q : FilePath) (content : Option Bytes) (trail : List Action) (w : World)
    : Type 0 where
  pub file : lookup q w.disk ≡ content
  pub logged : w.trail ≡ trail

pub Ends-Steady :
    {A : Type 0} {Kept : FilePath → Type 0} (q : FilePath) (content : Option Bytes)
    (trail : List Action) (m : Exec A) (w : World)
    → Quiet Kept m
    → Kept q
    → Steady q content trail w
    → Ends (λ a v. Steady q content trail v) (λ e v. Steady q content trail v) m w
Ends-Steady q content trail m w quiet k h = record {
  at =
      Holds-both (λ v. Steady q content trail v) (m w).0 (m w).1
        (record { file = quiet.disk w q k ∙ h.file; logged = quiet.trail w ∙ h.logged });
}

-- A file is read as the disk has it, and reading changes nothing.
pub Ends-read_file :
    (p : FilePath) (w : World)
    → Ends
        (λ content v. (lookup p w.disk ≡ some content) × (v.disk ≡ w.disk) × (v.trail ≡ w.trail))
        (λ e v. (e ≡ not_exist → lookup p w.disk ≡ none) × (v.disk ≡ w.disk) × (v.trail ≡ w.trail))
        (read_file p)
        w
unfolding read_file
Ends-read_file p w =
    Ends-call _ _ w
      (λ os. record {
        at = elim (Option-cases (lookup p w.disk)) [
          | inl gone ↦ rw gone (λ e. refl, refl, refl)
          | inr (content, there) ↦ rw there (refl, refl, refl)
        ];
      })
      (λ os n. (λ e. absurd (cc), refl, refl))

Holds-logged :
    {A : Type 0} (P : A → World → Type 0) (E : Error → World → Type 0) (trail : List Action)
    (r : Result A) (w : World)
    → Holds P E r w
    → w.trail ≡ trail
    → Holds (λ a v. P a v × (v.trail ≡ trail)) (λ e v. E e v × (v.trail ≡ trail)) r w
Holds-logged P E trail (ok a) w h t = (h, t)
Holds-logged P E trail (err e) w h t = (h, t)

module _ {A : Type 0} {P : A → World → Type 0} {E : Error → World → Type 0} where
  -- A quiet step keeps the trail besides what else is known of it.
  pub Ends-logged :
      {Kept : FilePath → Type 0} (m : Exec A) (w : World)
      → Quiet Kept m
      → Ends P E m w
      → Ends (λ a v. P a v × (v.trail ≡ w.trail)) (λ e v. E e v × (v.trail ≡ w.trail)) m w
  Ends-logged m w quiet h = record {
    at = Holds-logged P E w.trail (m w).0 (m w).1 h.at (quiet.trail w);
  }

-- A computed result is returned as it is, and changes nothing.
pub Ends-lift :
    {A : Type 0} (r : Result A) (w : World)
    → Ends (λ a v. (r ≡ ok a) × (v ≡ w)) (λ e v. (r ≡ err e) × (v ≡ w)) (lift r) w
unfolding lift
Ends-lift (ok a) w = record { at = (refl, refl) }
Ends-lift (err e) w = record { at = (refl, refl) }

-- Two postconditions of one step.
Holds-and :
    {A : Type 0} (P Q : A → World → Type 0) (E F : Error → World → Type 0) (r : Result A)
    (w : World)
    → Holds P E r w
    → Holds Q F r w
    → Holds (λ a v. P a v × Q a v) (λ e v. E e v × F e v) r w
Holds-and P Q E F (ok a) w h k = (h, k)
Holds-and P Q E F (err e) w h k = (h, k)

Holds-always :
    {A : Type 0} (P : A → World → Type 0) (r : Result A) (w : World)
    → ((a : A) (v : World) → P a v)
    → Holds P (λ e v. Unit) r w
Holds-always P (ok a) w h = h a w
Holds-always P (err e) w h = tt

module _ {A : Type 0} {P Q : A → World → Type 0} {E F : Error → World → Type 0} where
  pub Ends-and :
      (m : Exec A) (w : World)
      → Ends P E m w
      → Ends Q F m w
      → Ends (λ a v. P a v × Q a v) (λ e v. E e v × F e v) m w
  Ends-and m w h k = record { at = Holds-and P Q E F (m w).0 (m w).1 h.at k.at }

pub Ends-always :
    {A : Type 0} {P : A → World → Type 0} (m : Exec A) (w : World)
    → ((a : A) (v : World) → P a v)
    → Ends P (λ e v. Unit) m w
Ends-always m w h = record { at = Holds-always _ (m w).0 (m w).1 h }

-- A step with what it has returned.
Holds-returned :
    {A : Type 0} (P : A → World → Type 0) (E : Error → World → Type 0) (ran : Result A × World)
    → Holds P E ran.0 ran.1
    → Holds (λ a v. P a v × (ran ≡ (ok a, v))) (λ e v. E e v × (ran ≡ (err e, v))) ran.0 ran.1
Holds-returned P E (ok a, w) h = (h, refl)
Holds-returned P E (err e, w) h = (h, refl)

pub Ends-returned :
    {A : Type 0} (P : A → World → Type 0) (E : Error → World → Type 0) (m : Exec A) (w : World)
    → Ends P E m w
    → Ends (λ a v. P a v × (m w ≡ (ok a, v))) (λ e v. E e v × (m w ≡ (err e, v))) m w
Ends-returned P E m w h = record { at = Holds-returned P E (m w) h.at }
