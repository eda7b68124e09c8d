-- ===== src/System/Unmarked.antt =====
-- Steps whose errors are none that the handlers of internal/ui look for.
use caddy_waf_ui.Prelude.{ℕ, ◌≡◌, refl, Bool, true, false, Option, none, some, if◌then◌else◌}
use caddy_waf_ui.Text.{Bytes}
use caddy_waf_ui.Errors.{
  Stage, Error, os_failure, not_exist, wrapped, Sentinel, is_error, Result, ok, err,
}
use caddy_waf_ui.System.{
  World, Context, Outcome, works, fails, Exec, pure, raise, lift, ◌>>=◌, continue, finally, handled,
  catch, wrap,
}
use caddy_waf_ui.System.Store.{FilePath, lookup}
use caddy_waf_ui.System.Calls.{
  read_file, stat, plain_call, remove, create, write, temp_path, create_temp, rename, read_dir,
  call, settled, next_outcome, of_option, drop_content, removed, renamed, created,
}

-- No sentinel is the error, or wrapped in it.
pub record IsUnmarked (e : Error) : Type 0 where
  pub none_of : (s : Sentinel) → is_error e s ≡ false

pub IsUnmarked-wrapped : (stage : Stage) (e : Error) → IsUnmarked e → IsUnmarked (wrapped stage e)
unfolding is_error
IsUnmarked-wrapped stage e h = record { none_of = h.none_of }

pub IsUnmarked-os_failure : IsUnmarked os_failure
unfolding is_error
IsUnmarked-os_failure = record { none_of = λ s. refl }

pub IsUnmarked-not_exist : IsUnmarked not_exist
unfolding is_error
IsUnmarked-not_exist = record { none_of = λ s. refl }

abbrev pub UnmarkedResult : {A : Type 0} → Result A → Type 0
UnmarkedResult (ok a) = Unit
UnmarkedResult (err e) = IsUnmarked e

pub record Unmarked {A : Type 0} (m : Exec A) : Type 0 where
  pub result : (w : World) → UnmarkedResult (m w).0

module _ {A : Type 0} where
  pub Unmarked-pure : (a : A) → Unmarked (pure a)
  unfolding pure
  Unmarked-pure a = record { result = λ w. tt }

  pub Unmarked-raise : (e : Error) → IsUnmarked e → Unmarked (raise {A = A} e)
  unfolding raise
  Unmarked-raise e h = record { result = λ w. h }

  pub Unmarked-lift : (r : Result A) → UnmarkedResult r → Unmarked (lift r)
  unfolding lift
  Unmarked-lift r h = record { result = λ w. h }

  pub Unmarked-if :
      (b : Bool) (m n : Exec A) → Unmarked m → Unmarked n → Unmarked (if b then m else n)
  Unmarked-if true m n km kn = km
  Unmarked-if false m n km kn = kn

  handled-UnmarkedResult :
      (r : Result A) (f : Error → Exec A) (w : World)
      → UnmarkedResult r
      → ((e : Error) → IsUnmarked e → Unmarked (f e))
      → UnmarkedResult (handled r f w).0
  handled-UnmarkedResult (ok a) f w h k = tt
  handled-UnmarkedResult (err e) f w h k = (k e h).result w

  pub Unmarked-catch :
      (m : Exec A) (f : Error → Exec A)
      → Unmarked m
      → ((e : Error) → IsUnmarked e → Unmarked (f e))
      → Unmarked (catch m f)
  unfolding catch
  Unmarked-catch m f h k = record {
    result = λ w. handled-UnmarkedResult (m w).0 f (m w).1 (h.result w) k;
  }

  pub Unmarked-wrap : (stage : Stage) (m : Exec A) → Unmarked m → Unmarked (wrap stage m)
  unfolding wrap
  Unmarked-wrap stage m h =
      Unmarked-catch m (λ e. raise (wrapped stage e)) h
        (λ e k. Unmarked-raise _ (IsUnmarked-wrapped stage e k))

module _ {A B : Type 0} where
  continue-UnmarkedResult :
      (r : Result A) (f : A → Exec B) (w : World)
      → UnmarkedResult r
      → ((a : A) → Unmarked (f a))
      → UnmarkedResult (continue r f w).0
  continue-UnmarkedResult (ok a) f w h k = (k a).result w
  continue-UnmarkedResult (err e) f w h k = h

  pub Unmarked-bind :
      (m : Exec A) (f : A → Exec B) → Unmarked m → ((a : A) → Unmarked (f a)) → Unmarked (m >>= f)
  unfolding ◌>>=◌
  Unmarked-bind m f h k = record {
    result = λ w. continue-UnmarkedResult (m w).0 f (m w).1 (h.result w) k;
  }

  pub Unmarked-finally :
      (m : Exec A) (f : Result A → Exec B)
      → Unmarked m
      → ((r : Result A) → UnmarkedResult r → Unmarked (f r))
      → Unmarked (finally m f)
  unfolding finally
  Unmarked-finally m f h k = record { result = λ w. (k (m w).0 (h.result w)).result (m w).1 }

settled-Unmarked :
    {A : Type 0} (good : Exec A) (bad : ℕ → World → World) (o : Outcome)
    → Unmarked good
    → Unmarked (settled good bad o)
settled-Unmarked good bad works h = h
settled-Unmarked good bad (fails n) h = record { result = λ w. IsUnmarked-os_failure }

call-Unmarked :
    {A : Type 0} (good : Exec A) (bad : ℕ → World → World)
    → Unmarked good
    → Unmarked (call good bad)
call-Unmarked good bad h = record {
  result = λ w. (settled-Unmarked good bad (next_outcome w.outcomes) h).result _;
}

-- The calls of package os, by what they find.
read_result : (found : Option Bytes) → UnmarkedResult (of_option found)
read_result none = IsUnmarked-not_exist
read_result (some content) = tt

stat_result : (found : Option Bytes) → UnmarkedResult (drop_content (of_option found))
stat_result none = IsUnmarked-not_exist
stat_result (some content) = tt

remove_result :
    (p : FilePath) (found : Option Bytes) (w : World) → UnmarkedResult (removed p found w).0
remove_result p none w = IsUnmarked-not_exist
remove_result p (some content) w = tt

rename_result :
    (p q : FilePath) (found : Option Bytes) (w : World) → UnmarkedResult (renamed p q found w).0
rename_result p q none w = IsUnmarked-not_exist
rename_result p q (some content) w = tt

create_result :
    (p : FilePath) (found : Option Bytes) (w : World) → UnmarkedResult (created p found w).0
create_result p none w = tt
create_result p (some content) w = IsUnmarked-os_failure

pub Unmarked-read_file : (p : FilePath) → Unmarked (read_file p)
unfolding read_file
Unmarked-read_file p = call-Unmarked _ _ (record { result = λ w. read_result (lookup p w.disk) })

pub Unmarked-stat : (p : FilePath) → Unmarked (stat p)
unfolding stat
Unmarked-stat p = call-Unmarked _ _ (record { result = λ w. stat_result (lookup p w.disk) })

pub Unmarked-remove : (p : FilePath) → Unmarked (remove p)
unfolding remove
Unmarked-remove p = call-Unmarked _ _ (record { result = λ w. remove_result p (lookup p w.disk) w })

pub Unmarked-rename : (p q : FilePath) → Unmarked (rename p q)
unfolding rename
Unmarked-rename p q =
    call-Unmarked _ _ (record { result = λ w. rename_result p q (lookup p w.disk) w })

pub Unmarked-create_temp : (ctx : Context) (p : FilePath) → Unmarked (create_temp ctx p)
unfolding create_temp
Unmarked-create_temp ctx p =
    call-Unmarked _ _
      (record { result = λ w. create_result (temp_path ctx p) (lookup (temp_path ctx p) w.disk) w })

pub Unmarked-plain_call : Unmarked plain_call
unfolding plain_call
Unmarked-plain_call = call-Unmarked _ _ (record { result = λ w. tt })

pub Unmarked-create : (p : FilePath) → Unmarked (create p)
unfolding create
Unmarked-create p = call-Unmarked _ _ (record { result = λ w. tt })

pub Unmarked-write : (p : FilePath) (content : Bytes) → Unmarked (write p content)
unfolding write
Unmarked-write p content = call-Unmarked _ _ (record { result = λ w. tt })

pub Unmarked-read_dir : (dir : Bytes) → Unmarked (read_dir dir)
unfolding read_dir
Unmarked-read_dir dir = call-Unmarked _ _ (record { result = λ w. tt })

pub ruleset unmarked_rules = (
  Unmarked-pure, Unmarked-raise, Unmarked-if, Unmarked-bind, Unmarked-finally, Unmarked-catch,
  Unmarked-wrap, Unmarked-read_file, Unmarked-stat, Unmarked-remove, Unmarked-rename,
  Unmarked-create_temp, Unmarked-plain_call, Unmarked-create, Unmarked-write, Unmarked-read_dir,
  IsUnmarked-wrapped, IsUnmarked-os_failure, IsUnmarked-not_exist,
)
