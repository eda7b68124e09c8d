-- ===== src/System/Frame.antt =====
-- Steps that leave the audit trail and all files of a certain kind as they are.
use caddy_waf_ui.Prelude.{
  ℕ, take, Option-cases, inl, inr, ◌≡◌, ◌≢◌, refl, ◌∙◌, Bool, true, false, arith, if◌then◌else◌, [],
}
use caddy_waf_ui.Text.{Bytes}
use caddy_waf_ui.Errors.{Stage, Error, wrapped, Result, ok, err}
use caddy_waf_ui.System.{
  World, Context, Outcome, works, fails, Exec, pure, raise, lift, ◌>>=◌, finally, handled, catch,
  wrap,
}
use caddy_waf_ui.System.Store.{
  FilePath, path_eq_iff, lookup, put, delete, lookup-put, lookup-delete,
}
use caddy_waf_ui.System.Calls.{
  read_file, stat, plain_call, remove, create, write, temp_path, create_temp, rename, read_dir,
  file_size, call, settled, next_outcome,
}

-- `m` writes nothing to the audit trail, and no file at a path of `Kept`.
pub record Quiet {A : Type 0} (Kept : FilePath → Type 0) (m : Exec A) : Type 0 where
  pub disk : (w : World) (q : FilePath) → Kept q → lookup q (m w).1.disk ≡ lookup q w.disk
  pub trail : (w : World) → (m w).1.trail ≡ w.trail

module _ {A : Type 0} {Kept : FilePath → Type 0} where
  pub Quiet-pure : (a : A) → Quiet Kept (pure a)
  unfolding pure
  Quiet-pure a = record { disk = λ w q k. refl; trail = λ w. refl }

  pub Quiet-raise : (e : Error) → Quiet Kept (raise {A = A} e)
  unfolding raise
  Quiet-raise e = record { disk = λ w q k. refl; trail = λ w. refl }

  pub Quiet-lift : (r : Result A) → Quiet Kept (lift r)
  unfolding lift
  Quiet-lift r = record { disk = λ w q k. refl; trail = λ w. refl }

  pub Quiet-if :
      (b : Bool) (m n : Exec A) → Quiet Kept m → Quiet Kept n → Quiet Kept (if b then m else n)
  Quiet-if true m n km kn = km
  Quiet-if false m n km kn = kn

abbrev pub Returns : {A : Type 0} → A → Result A → Type 0
Returns t (ok a) = a ≡ t
Returns t (err e) = Unit

module _ {A B : Type 0} {Kept : FilePath → Type 0} where
  Quiet-continue :
      (r : Result A) (f : A → Exec B) → ((a : A) → Quiet Kept (f a)) → Quiet Kept (lift r >>= f)
  unfolding ◌>>=◌ lift raise
  Quiet-continue (ok a) f kf = kf a
  Quiet-continue (err e) f kf = Quiet-raise e

  pub Quiet-bind :
      (m : Exec A) (f : A → Exec B)
      → Quiet Kept m
      → ((a : A) → Quiet Kept (f a))
      → Quiet Kept (m >>= f)
  unfolding ◌>>=◌ lift
  Quiet-bind m f km kf = record {
    disk = λ w q k. let (r, w') = m w in (Quiet-continue r f kf).disk w' q k ∙ km.disk w q k;
    trail = λ w. let (r, w') = m w in (Quiet-continue r f kf).trail w' ∙ km.trail w;
  }

  Quiet-continue_at :
      (t : A) (r : Result A) (f : A → Exec B)
      → Returns t r
      → Quiet Kept (f t)
      → Quiet Kept (lift r >>= f)
  unfolding ◌>>=◌ lift raise
  Quiet-continue_at t (ok a) f e kf = rw e kf
  Quiet-continue_at t (err e) f _ kf = Quiet-raise e

  -- The same where the first step can return one value only.
  pub Quiet-bind_at :
      (t : A) (m : Exec A) (f : A → Exec B)
      → ((w : World) → Returns t (m w).0)
      → Quiet Kept m
      → Quiet Kept (f t)
      → Quiet Kept (m >>= f)
  unfolding ◌>>=◌ lift
  Quiet-bind_at t m f only km kf = record {
    disk = λ w q k. (Quiet-continue_at t (m w).0 f (only w) kf).disk (m w).1 q k ∙ km.disk w q k;
    trail = λ w. (Quiet-continue_at t (m w).0 f (only w) kf).trail (m w).1 ∙ km.trail w;
  }

  pub Quiet-finally :
      (m : Exec A) (f : Result A → Exec B)
      → Quiet Kept m
      → ((r : Result A) → Quiet Kept (f r))
      → Quiet Kept (finally m f)
  unfolding finally
  Quiet-finally m f km kf = record {
    disk = λ w q k. let (r, w') = m w in (kf r).disk w' q k ∙ km.disk w q k;
    trail = λ w. let (r, w') = m w in (kf r).trail w' ∙ km.trail w;
  }

module _ {A : Type 0} {Kept : FilePath → Type 0} where
  Quiet-handled :
      (r : Result A) (f : Error → Exec A)
      → ((e : Error) → Quiet Kept (f e))
      → Quiet Kept (handled r f)
  unfolding pure
  Quiet-handled (ok a) f kf = Quiet-pure a
  Quiet-handled (err e) f kf = kf e

  pub Quiet-catch :
      (m : Exec A) (f : Error → Exec A)
      → Quiet Kept m
      → ((e : Error) → Quiet Kept (f e))
      → Quiet Kept (catch m f)
  unfolding catch
  Quiet-catch m f km kf = record {
    disk = λ w q k. let (r, w') = m w in (Quiet-handled r f kf).disk w' q k ∙ km.disk w q k;
    trail = λ w. let (r, w') = m w in (Quiet-handled r f kf).trail w' ∙ km.trail w;
  }

  pub Quiet-wrap : (stage : Stage) (m : Exec A) → Quiet Kept m → Quiet Kept (wrap stage m)
  unfolding wrap
  Quiet-wrap stage m km = Quiet-catch m (λ e. raise (wrapped stage e)) km (λ e. Quiet-raise _)

module _ {Kept : FilePath → Type 0} where
  pub Quiet-read_file : (p : FilePath) → Quiet Kept (read_file p)
  unfolding read_file
  Quiet-read_file p = record { disk = λ w q k. ground arith; trail = λ w. ground arith }

  pub Quiet-read_dir : (dir : Bytes) → Quiet Kept (read_dir dir)
  unfolding read_dir
  Quiet-read_dir dir = record { disk = λ w q k. ground arith; trail = λ w. ground arith }

  pub Quiet-stat : (p : FilePath) → Quiet Kept (stat p)
  unfolding stat
  Quiet-stat p = record { disk = λ w q k. ground arith; trail = λ w. ground arith }

  pub Quiet-file_size : (p : FilePath) → Quiet Kept (file_size p)
  unfolding file_size
  Quiet-file_size p = record { disk = λ w q k. ground arith; trail = λ w. ground arith }

  pub Quiet-plain_call : Quiet Kept plain_call
  unfolding plain_call
  Quiet-plain_call = record { disk = λ w q k. ground arith; trail = λ w. ground arith }

  Quiet-settled :
      {A : Type 0} (good : Exec A) (bad : ℕ → World → World)
      → Quiet Kept good
      → ((n : ℕ) → Quiet Kept (λ w. (ok tt, bad n w)))
      → (o : Outcome) → Quiet Kept (settled good bad o)
  Quiet-settled good bad kg kb works = kg
  Quiet-settled good bad kg kb (fails n) = record {
    disk = λ w q k. (kb n).disk w q k;
    trail = λ w. (kb n).trail w;
  }

  -- A call is quiet when it is so in both outcomes.
  Quiet-call :
      {A : Type 0} (good : Exec A) (bad : ℕ → World → World)
      → Quiet Kept good
      → ((n : ℕ) → Quiet Kept (λ w. (ok tt, bad n w)))
      → Quiet Kept (call good bad)
  Quiet-call good bad kg kb = record {
    disk = λ w q k. (Quiet-settled good bad kg kb (next_outcome w.outcomes)).disk _ q k;
    trail = λ w. (Quiet-settled good bad kg kb (next_outcome w.outcomes)).trail _;
  }

  module _ (p : FilePath) (away : (q : FilePath) → Kept q → p ≢ q) where
    pub Quiet-remove : Quiet Kept (remove p)
    unfolding remove
    Quiet-remove = record {
      disk = λ w q k. ground (arith, lookup-delete p q w.disk, path_eq_iff p q, away q k);
      trail = λ w. ground arith;
    }

    Quiet-put :
        (content : Bytes) → Quiet Kept (λ w. (ok tt, record w { disk = put p content w.disk }))
    Quiet-put content = record {
      disk = λ w q k. ground (arith, lookup-put p q content w.disk, path_eq_iff p q, away q k);
      trail = λ w. refl;
    }

    pub Quiet-create : Quiet Kept (create p)
    unfolding create
    Quiet-create = record {
      disk = λ w q k. ground (arith, lookup-put p q [] w.disk, path_eq_iff p q, away q k);
      trail = λ w. ground arith;
    }

    pub Quiet-write : (content : Bytes) → Quiet Kept (write p content)
    unfolding write
    Quiet-write content = Quiet-call _ _ (Quiet-put content) (λ n. Quiet-put (take n content))

    pub Quiet-rename : (q : FilePath) → ((r : FilePath) → Kept r → q ≢ r) → Quiet Kept (rename p q)
    unfolding rename
    Quiet-rename q away' =
        Quiet-call _ _
          (record {
            disk = λ w r k. elim (Option-cases (lookup p w.disk)) [
              | inl gone ↦ ground arith
              | inr (content, there) ↦ ground (
                arith,
                lookup-put q r content (delete p w.disk),
                lookup-delete p r w.disk,
                path_eq_iff p r,
                path_eq_iff q r,
                away r k,
                away' r k,
              )
            ];
            trail = λ w. ground arith;
          })
          (λ n. record { disk = λ w r k. refl; trail = λ w. refl })

  pub Quiet-create_temp :
      (ctx : Context) (p : FilePath)
      → ((q : FilePath) → Kept q → temp_path ctx p ≢ q)
      → Quiet Kept (create_temp ctx p)
  unfolding create_temp
  Quiet-create_temp ctx p away = record {
    disk = λ w q k. ground (
      arith,
      lookup-put (temp_path ctx p) q [] w.disk,
      path_eq_iff (temp_path ctx p) q,
      away q k,
    );
    trail = λ w. ground arith;
  }

pub ruleset quiet_rules = (
  Quiet-pure, Quiet-raise, Quiet-lift, Quiet-if, Quiet-bind, Quiet-finally, Quiet-catch, Quiet-wrap,
  Quiet-read_file, Quiet-read_dir, Quiet-stat, Quiet-plain_call, Quiet-file_size,
)

-- A temporary file has the name that the context gives it.
pub create_temp_path :
    (ctx : Context) (p : FilePath) (w : World) → Returns (temp_path ctx p) (create_temp ctx p w).0
unfolding create_temp
create_temp_path ctx p w = ground arith
