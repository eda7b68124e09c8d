-- ===== src/Domain/Overlay.antt =====
-- internal/domain/overlay.go: the header line of an overlay.
use caddy_waf_ui.Prelude.{[], ◌++◌, if◌then◌else◌}
use caddy_waf_ui.Text.{Bytes, str, beq}
use caddy_waf_ui.Domain.Model.{WafMode}

abbrev pub header_prefix : Bytes
header_prefix = str "# domain:"

-- `ts` is the time in UTC, formatted by RFC 3339.
unfoldable pub header : Bytes → WafMode → Bytes → Bytes
unfolding beq
header domain mode ts =
    if beq mode []
    then header_prefix ++ (str " " ++ (domain ++ (str " | updated: " ++ ts)))
    else header_prefix
      ++ (str " " ++ (domain ++ (str " | mode: " ++ (mode ++ (str " | updated: " ++ ts)))))
