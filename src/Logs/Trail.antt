-- ===== src/Logs/Trail.antt =====
-- internal/logs/logger.go: the level of the log, and `LogAction` as one more event of the audit trail.
use caddy_waf_ui.Prelude.{[], ◌∷◌, ◌++◌, if◌then◌else◌}
use caddy_waf_ui.Text.{Bytes, str, beq}
use caddy_waf_ui.Errors.{ok}
use caddy_waf_ui.System.{ReloadStatus, Exec}

unfoldable pub or_unknown : Bytes → Bytes
unfolding beq
or_unknown s = if beq s [] then str "unknown" else s

-- The status texts that the program passes are never empty.
unfoldable pub log_action : Bytes → Bytes → Bytes → Bytes → Bytes → ReloadStatus → Exec (Unit {0})
log_action event domain from to remote_ip status w = (
  ok tt,
  record w {
    trail =
        w.trail
        ++ record {
          event = event;
          domain = domain;
          from = or_unknown from;
          to = or_unknown to;
          remote_ip = remote_ip;
          caddy_reload = status;
        }
          ∷ [];
  },
)

-- The levels of package slog; events of the audit trail have the level `info`.
pub data Level : Type 0 where
  debug info warn error : Level

unfoldable pub parse_level : Bytes → Level
unfolding beq
parse_level s =
    if beq s (str "debug")
    then debug
    else if beq s (str "warn")
    then warn
    else if beq s (str "error")
    then error
    else info
