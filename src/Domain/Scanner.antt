-- ===== src/Domain/Scanner.antt =====
-- `Scan` of internal/domain/scanner.go.
use caddy_waf_ui.Prelude.{Bool, ◌&&◌, Option, none, some, List, [], ◌∷◌, if◌then◌else◌}
use caddy_waf_ui.Text.{Bytes, str, has_prefix, has_suffix}
use caddy_waf_ui.System.{Exec, pure, raise, catch, ◌>>=◌}
use caddy_waf_ui.System.Calls.{read_file, read_dir}
use caddy_waf_ui.System.Frame.{Quiet, quiet_rules}
use caddy_waf_ui.Domain.Model.{Site}
use caddy_waf_ui.Domain.Header.{Clock, parse_site_header}
use caddy_waf_ui.Files.Backup.{is_not_exist}

-- "waf-{slug}.conf".
abbrev is_overlay_name : Bytes → Bool
is_overlay_name name = has_prefix name (str "waf-") && has_suffix name (str ".conf")

abbrev onto_sites : Option Site → List Site → List Site
onto_sites none sites = sites
onto_sites (some site) sites = site ∷ sites

-- A file that cannot be read, or has no valid header, is skipped.
scan_file : Clock → Bytes → Bytes → Exec (Option Site)
scan_file clock dir name =
    if is_overlay_name name
    then catch
        (do
          content ← read_file (record { dir = dir; name = name })
          pure (parse_site_header clock content))
        (λ e. pure none)
    else pure none

scan_names : Clock → Bytes → List Bytes → Exec (List Site)
scan_names clock dir [] = pure []
scan_names clock dir (name ∷ names) = do
  site ← scan_file clock dir name
  sites ← scan_names clock dir names
  pure (onto_sites site sites)

-- A missing directory holds no sites; another error of ReadDir is passed on.
pub scan_sites : Clock → Bytes → Exec (List Site)
unfolding scan_file scan_names
scan_sites clock dir = do
  names ← catch (read_dir dir) (λ e. if is_not_exist e then pure [] else raise e)
  scan_names clock dir names

module _ (clock : Clock) (dir : Bytes) where
  Quiet-scan_file : (name : Bytes) → Quiet (λ q. Unit {0}) (scan_file clock dir name)
  unfolding scan_file
  Quiet-scan_file name = search quiet_rules

  Quiet-scan_names : (names : List Bytes) → Quiet (λ q. Unit {0}) (scan_names clock dir names)
  unfolding scan_names
  Quiet-scan_names [] = search quiet_rules
  Quiet-scan_names (name ∷ names) =
      search (quiet_rules, Quiet-scan_file name, Quiet-scan_names names)

  -- The scan changes no file and records no event, whatever it meets.
  pub Quiet-scan_sites : Quiet (λ q. Unit {0}) (scan_sites clock dir)
  unfolding scan_sites
  Quiet-scan_sites = search (quiet_rules, Quiet-scan_names)
