-- ===== src/Ui/Pages/Data.antt =====
-- `buildPageData` of internal/ui/pages.go.
use caddy_waf_ui.Prelude.{ℕ, ◌+◌, ◌-◌, false, Option, none, some, List, [], ◌∷◌, if◌then◌else◌, pos}
use caddy_waf_ui.Text.{Bytes, str, beq}
use caddy_waf_ui.System.{World, Context}
use caddy_waf_ui.System.Store.{FilePath}
use caddy_waf_ui.Config.{managed_dir}
use caddy_waf_ui.Caddy.{Readback}
use caddy_waf_ui.Domain.Model.{Site, WafMode, mode_on, mode_detection_only}
use caddy_waf_ui.Domain.Header.{Clock}
use caddy_waf_ui.Files.Naming.{waf_config_path, exclusions_config_path, ip_rules_config_path}
use caddy_waf_ui.Files.Backup.{BackupInfo}
use caddy_waf_ui.Files.Listing.{list_backups}
use caddy_waf_ui.Logs.Entry.{Formats}
use caddy_waf_ui.Logs.Matches.{AuditEntry}
use caddy_waf_ui.Logs.Paginate.{Page}
use caddy_waf_ui.Logs.Reader.{Complaint, read}
use caddy_waf_ui.Waf.Exclusions.{Exclusion}
use caddy_waf_ui.IpRules.{IpRules}
use caddy_waf_ui.Web.Http.{Request}
use caddy_waf_ui.Web.Auth.{Mac}
use caddy_waf_ui.Ui.Overlay.{read_exclusions, read_ip_rules}
use caddy_waf_ui.Ui.Pages.{
  CrsRule, crs_catalog, flash_message, flash_type, attempt, or_default, find_site, read_overlay,
  csrf_or_empty, log_page_url, page_number,
}
use caddy_waf_ui.Ui.Pages.Counts.{Counts, no_counts, count_overlays}

-- What the pages of a site show of its overlays.
pub record SiteData : Type 0 where
  pub waf_conf : Bytes
  pub exclusions_conf : Bytes
  pub ip_rules_conf : Bytes
  pub active_exclusions : List Exclusion
  pub active_ip_rules : IpRules

abbrev pub no_site_data : SiteData
no_site_data = record {
  waf_conf = [];
  exclusions_conf = [];
  ip_rules_conf = [];
  active_exclusions = [];
  active_ip_rules = record { allowlist = []; denylist = [] };
}

-- What the page of logs shows.
pub record LogData : Type 0 where
  pub logs : List AuditEntry
  pub log_page : ℕ
  pub log_pages : ℕ
  pub log_prev_url : Bytes
  pub log_next_url : Bytes

abbrev pub no_log_data : LogData
no_log_data = record {
  logs = [];
  log_page = 0;
  log_pages = 0;
  log_prev_url = [];
  log_next_url = [];
}

pub record PageData : Type 0 where
  pub active_tab : Bytes
  pub flash : Bytes
  pub flash_kind : Bytes
  pub csrf : Bytes
  pub sites : List Site
  pub current_site : Option Site
  pub sites_on : ℕ
  pub sites_detection : ℕ
  pub totals : Counts
  pub log_data : LogData
  pub log_search : Bytes
  pub action_filter : Bytes
  pub crs_catalog : List CrsRule
  pub site_data : SiteData
  pub snapshots : List BackupInfo
  pub readback : Readback

-- Package time on headers, package json on the audit log, HMAC, the file at the path of the audit log,
-- and the last read-back of Caddy.
pub record Sources : Type 0 where
  pub clock : Clock
  pub formats : Formats
  pub mac : Mac
  pub audit_log : FilePath
  pub readback : Readback

abbrev shown : (Bytes → Bytes) → Option (Page AuditEntry × List Complaint) → LogData
shown query none = no_log_data
shown query (some (result, complaints)) = record {
  logs = result.entries;
  log_page = result.page;
  log_pages = result.pages;
  log_prev_url = log_page_url query (result.page - 1);
  log_next_url = log_page_url query (result.page + 1);
}

-- `loadLogs`, and what `buildPageData` makes of it.
unfoldable pub load_logs : Sources → Context → (Bytes → Bytes) → World → LogData × World
unfolding attempt read page_number log_page_url
load_logs sources ctx query w =
    let (result, v) =
      attempt
        (read sources.formats
          (record {
            search = query (str "search");
            action = query (str "actionFilter");
            page = page_number (query (str "page"));
            page_size = pos 0;
          })
          sources.audit_log)
        w in
    (shown query result, v)

unfoldable pub load_site : Context → Bytes → World → SiteData × World
unfolding attempt read_overlay read_exclusions read_ip_rules
load_site ctx domain_name w =
    let dir = managed_dir ctx.env in
    let (waf_conf, w1) = read_overlay (waf_config_path dir domain_name) w in
    let (exclusions_conf, w2) = read_overlay (exclusions_config_path dir domain_name) w1 in
    let (ip_rules_conf, w3) = read_overlay (ip_rules_config_path dir domain_name) w2 in
    let (exclusions, w4) = attempt (read_exclusions ctx domain_name) w3 in
    let (rules, w5) = attempt (read_ip_rules ctx domain_name) w4 in
    (
      record {
        waf_conf = waf_conf;
        exclusions_conf = exclusions_conf;
        ip_rules_conf = ip_rules_conf;
        active_exclusions = or_default [] exclusions;
        active_ip_rules = or_default (record { allowlist = []; denylist = [] }) rules;
      },
      w5,
    )

unfoldable pub load_current : Context → Option Site → World → SiteData × World
unfolding load_site
load_current ctx none w = (no_site_data, w)
load_current ctx (some site) w = load_site ctx site.domain w

unfoldable pub load_backups : Context → Site → World → List BackupInfo × World
unfolding attempt
load_backups ctx site w =
    let (infos, v) = attempt (list_backups ctx site.domain) w in (or_default [] infos, v)

unfoldable pub load_snapshots : Context → Bytes → Option Site → World → List BackupInfo × World
unfolding load_backups
load_snapshots ctx tab none = λ w. ([], w)
load_snapshots ctx tab (some site) =
    if beq tab (str "rollback") then load_backups ctx site else (λ w. ([], w))

-- The logs are read for their own tab only.
unfoldable pub load_tab_logs : Sources → Context → Bytes → (Bytes → Bytes) → World → LogData × World
unfolding load_logs
load_tab_logs sources ctx tab query =
    if beq tab (str "logs") then load_logs sources ctx query else (λ w. (no_log_data, w))

unfoldable pub count_mode : WafMode → List Site → ℕ
count_mode mode [] = 0
count_mode mode (site ∷ sites) = (if beq site.mode mode then 1 else 0) + count_mode mode sites

unfoldable pub build_page_data :
    Sources → Context → Request → Bytes → List Site → World → PageData × World
unfolding load_tab_logs find_site load_current load_snapshots count_mode count_overlays
    flash_message flash_type csrf_or_empty
build_page_data sources ctx r tab sites w =
    let (log_data, w1) = load_tab_logs sources ctx tab r.query w in
    let current = find_site sites (r.query (str "domain")) in
    let (site_data, w2) = load_current ctx current w1 in
    let (snapshots, w3) = load_snapshots ctx tab current w2 in
    let (totals, w4) = count_overlays ctx w3 in
    (
      record {
        active_tab = tab;
        flash = flash_message (r.query (str "flash"));
        flash_kind = flash_type (r.query (str "flash"));
        csrf = csrf_or_empty sources.mac ctx.env;
        sites = sites;
        current_site = current;
        sites_on = count_mode mode_on sites;
        sites_detection = count_mode mode_detection_only sites;
        totals = totals;
        log_data = log_data;
        log_search = r.query (str "search");
        action_filter = r.query (str "actionFilter");
        crs_catalog = crs_catalog;
        site_data = site_data;
        snapshots = snapshots;
        readback = sources.readback;
      },
      w4,
    )

-- A page without data, as the login has it.
abbrev pub blank_page : PageData
blank_page = record {
  active_tab = [];
  flash = [];
  flash_kind = [];
  csrf = [];
  sites = [];
  current_site = none;
  sites_on = 0;
  sites_detection = 0;
  totals = no_counts;
  log_data = no_log_data;
  log_search = [];
  action_filter = [];
  crs_catalog = [];
  site_data = no_site_data;
  snapshots = [];
  readback = record { verified = false; servers = 0; missing = [] };
}
