-- ===== src/Errors.antt =====
-- The errors that the program returns, with the wrapping of fmt.Errorf and the search of errors.Is.
use caddy_waf_ui.Prelude.{ℕ, Bool, true, false}
use caddy_waf_ui.Text.{Bytes}

-- Why a domain is refused (internal/service/validate.go).
pub data DomainFault : Type 0 where
  empty too_long dot_at_end two_dots label_length label_hyphen : DomainFault
  label_byte : ℕ → DomainFault

-- The texts that a wrapping puts in front of the error that it wraps.
pub data Stage : Type 0 where
  reading_previous creating_backup checking_source creating_directory copying_backup : Stage
  removing_old_backup generating writing restoring_snapshot reloading restoring_overlay : Stage

pub data Error : Type 0 where
  invalid_domain : DomainFault → Error
  invalid_mode : Error
  invalid_backup : Bytes → Error
  unknown_overlay : Bytes → Error
  invalid_id invalid_tag unknown_type invalid_param : Bytes → Error
  invalid_ip : Bytes → Error
  not_exist : Error
  os_failure : Error
  reload_failure : Bytes → Error
  wrapped : Stage → Error → Error

-- The sentinels that the handlers look for.
pub data Sentinel : Type 0 where
  err_invalid_domain err_invalid_mode err_invalid_backup : Sentinel

-- errors.Is: through the wrappings.
unfoldable pub is_error : Error → Sentinel → Bool
is_error (invalid_domain fault) err_invalid_domain = true
is_error invalid_mode err_invalid_mode = true
is_error (invalid_backup name) err_invalid_backup = true
is_error (wrapped stage e) sentinel = is_error e sentinel
is_error _ _ = false

pub data Result {ℓ} (A : Type ℓ) : Type ℓ where
  ok : A → Result A
  err : Error → Result A
