-- ===== src/Domain/Model.antt =====
-- internal/domain/model.go: the modes of the engine and a site.
use caddy_waf_ui.Prelude.{Bool}
use caddy_waf_ui.Text.{Bytes, str}

-- A mode is a string, of which three are supported.
abbrev pub WafMode : Type 0
WafMode = Bytes

abbrev pub mode_detection_only : WafMode
mode_detection_only = str "DetectionOnly"

abbrev pub mode_on : WafMode
mode_on = str "On"

abbrev pub mode_off : WafMode
mode_off = str "Off"

-- `updated` is the RFC 3339 text of the time, empty for the zero time.
pub record Site : Type 0 where
  pub domain : Bytes
  pub mode : WafMode
  pub updated : Bytes
  pub degraded : Bool
