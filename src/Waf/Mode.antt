-- ===== src/Waf/Mode.antt =====
-- internal/waf/mode.go: the engine's block of a site.
use caddy_waf_ui.Prelude.{◌++◌}
use caddy_waf_ui.Text.{Bytes, str}
use caddy_waf_ui.Domain.Model.{Site}
use caddy_waf_ui.Domain.Slug.{domain_slug}
use caddy_waf_ui.Domain.Overlay.{header}

abbrev pub managed_note : Bytes
managed_note = str "# Caddy WAF UI managed - do not edit manually\n"

abbrev directives_above : Bytes
directives_above =
    str "\ncoraza_waf {\n    directives `\n        Include /etc/caddy/coraza.conf\n"
    ++ (str "        Include /etc/caddy/owasp-crs/crs-setup.conf\n"
        ++ (str "        Include /etc/caddy/owasp-crs/rules/*.conf\n"
            ++ str "        SecRuleEngine "))

-- The template, executed. `ts` is the current time, formatted for the header.
unfoldable pub generate_snippet : Site → Bytes → Bytes → Bytes → Bytes
generate_snippet site audit_path include_dir ts =
    managed_note
    ++ (header site.domain site.mode ts
        ++ (directives_above
            ++ (site.mode
                ++ (str "\n        Include "
                    ++ (include_dir
                        ++ (str "/exclusions-"
                            ++ (domain_slug site.domain
                                ++ (str
                                      ".conf\n        SecAuditEngine RelevantOnly\n        SecAuditLog "
                                    ++ (audit_path
                                        ++ str
                                            "\n        SecAuditLogFormat JSON\n        SecAuditLogParts ABCDEFGHIJKZ\n    `\n}\n")))))))))
