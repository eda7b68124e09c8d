-- ===== src/System.antt =====
-- What the program does to the outside: files on a disk, calls that may fail, the audit trail.
-- Every call of package os takes its outcome from a list, so a theorem for all worlds covers every
-- pattern of failures. The state that a step reached stays reached when a later step fails.
pub mod Store
pub mod Calls
pub mod Frame
pub mod Ends
pub mod Stable
pub mod Unmarked
use caddy_waf_ui.Prelude.{ℕ, List}
use caddy_waf_ui.Text.{Bytes}
use caddy_waf_ui.Errors.{Stage, Error, wrapped, Result, ok, err}
use Store.{Disk}

-- The outcome of one call: it works, or it fails; a failing write leaves some bytes behind.
pub data Outcome : Type 0 where
  works : Outcome
  fails : ℕ → Outcome

-- The field caddy_reload of an audit event.
pub data ReloadStatus : Type 0 where
  success : ReloadStatus
  read_error backup_error generate_error write_error restore_error : Error → ReloadStatus
  refused : Error → ReloadStatus
  failed : Error → ReloadStatus
  failed_and_restore_failed : Error → Error → ReloadStatus

-- One event of the audit trail (logs.LogAction).
pub record Action : Type 0 where
  pub event : Bytes
  pub domain : Bytes
  pub from : Bytes
  pub to : Bytes
  pub remote_ip : Bytes
  pub caddy_reload : ReloadStatus

pub record World : Type 0 where
  pub disk : Disk
  pub outcomes : List Outcome
  pub trail : List Action

-- What one request reads from outside: the environment, the time in the two formats that the
-- program prints, and the random part of a temporary file's name.
pub record Context : Type 0 where
  pub env : Bytes → Bytes
  pub stamp : Bytes
  pub now : Bytes
  pub random : Bytes

abbrev pub Exec : Type 0 → Type 0
Exec A = World → Result A × World

module _ {A : Type 0} where
  unfoldable pub pure : A → Exec A
  pure a w = (ok a, w)

  unfoldable pub raise : Error → Exec A
  raise e w = (err e, w)

  unfoldable pub lift : Result A → Exec A
  lift r w = (r, w)

module _ {A B : Type 0} where
  abbrev pub continue : Result A → (A → Exec B) → Exec B
  continue (ok a) f w = f a w
  continue (err e) f w = (err e, w)

  infixl 5 ◌>>=◌
  unfoldable pub ◌>>=◌ : Exec A → (A → Exec B) → Exec B
  ◌>>=◌ m f w = let (r, w') = m w in continue r f w'

  -- What runs on the result, error or not.
  unfoldable pub finally : Exec A → (Result A → Exec B) → Exec B
  finally m f w = let (r, w') = m w in f r w'

module _ {A : Type 0} where
  -- `if err != nil { ... }` behind a step.
  abbrev pub handled : Result A → (Error → Exec A) → Exec A
  handled (ok a) f w = (ok a, w)
  handled (err e) f w = f e w

  unfoldable pub catch : Exec A → (Error → Exec A) → Exec A
  catch m f w = let (r, w') = m w in handled r f w'

  -- `fmt.Errorf("...: %w", err)` around the error of a step.
  unfoldable pub wrap : Stage → Exec A → Exec A
  unfolding catch raise
  wrap stage m = catch m (λ e. raise (wrapped stage e))

infixl 5 ◌>>◌
abbrev pub ◌>>◌ : {B : Type 0} → Exec (Unit {0}) → Exec B → Exec B
m >> k = m >>= λ _. k
