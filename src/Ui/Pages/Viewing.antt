-- ===== src/Ui/Pages/Viewing.antt =====
-- The pages of internal/ui/pages.go only read.
use caddy_waf_ui.Prelude.{
  ◌≡◌, refl, ◌∙◌, Bool, true, false, Option, none, some, List, [], ◌∷◌, if◌then◌else◌, not,
}
use caddy_waf_ui.Text.{Bytes, str, beq}
use caddy_waf_ui.System.{World, Context, Exec}
use caddy_waf_ui.System.Store.{FilePath, lookup}
use caddy_waf_ui.System.Frame.{Quiet, quiet_rules, Quiet-read_file, Quiet-read_dir}
use caddy_waf_ui.Config.{managed_dir}
use caddy_waf_ui.Domain.Model.{Site}
use caddy_waf_ui.Domain.Header.{Clock}
use caddy_waf_ui.Domain.Scanner.{Quiet-scan_sites}
use caddy_waf_ui.Files.Listing.Quiets.{Quiet-list_backups}
use caddy_waf_ui.Files.Naming.{file_type_exclusions, file_type_ip_rules}
use caddy_waf_ui.Logs.Entry.{Formats}
use caddy_waf_ui.Logs.Reader.{Options, read}
use caddy_waf_ui.Web.Http.{Request}
use caddy_waf_ui.Ui.Overlay.{
  read_exclusions_file, read_exclusions, read_ip_rules_file, read_ip_rules,
}
use caddy_waf_ui.Ui.Pages.{attempt, or_default, sorted_sites, read_overlay, clean_url}
use caddy_waf_ui.System.Calls.{read_dir}
use caddy_waf_ui.Ui.Pages.Counts.{
  Counts, no_counts, is_named, in_managed, count_exclusions, count_rules, count_entry,
  count_entries, count_overlays,
}
use caddy_waf_ui.Ui.Pages.Data.{
  Sources, no_log_data, load_logs, load_tab_logs, load_site, load_backups, load_current,
  load_snapshots, build_page_data,
}
use caddy_waf_ui.Ui.Pages.Serve.{Templates, tab_of, consume, show_index, handle_index}

-- No file has changed, and no event was recorded.
pub record Viewed (w v : World) : Type 0 where
  pub files : (q : FilePath) → lookup q v.disk ≡ lookup q w.disk
  pub events : v.trail ≡ w.trail

pub Viewed-refl : (w : World) → Viewed w w
Viewed-refl w = record { files = λ q. refl; events = refl }

pub Viewed-trans : (u v w : World) → Viewed u v → Viewed v w → Viewed u w
Viewed-trans u v w h k = record { files = λ q. k.files q ∙ h.files q; events = k.events ∙ h.events }

-- A step that views.
pub record IsView {A : Type 0} (f : World → A × World) : Type 0 where
  pub from : (w : World) → Viewed w (f w).1

pub IsView-if :
    {A : Type 0} (b : Bool) (f g : World → A × World)
    → IsView f
    → IsView g
    → IsView (if b then f else g)
IsView-if true f g h k = h
IsView-if false f g h k = k

pub IsView-here : {A : Type 0} (a : A) → IsView (λ w. (a, w))
IsView-here a = record { from = Viewed-refl }

pub Viewed-attempt :
    {A : Type 0} (m : Exec A) (w : World) → Quiet (λ q. Unit {0}) m → Viewed w (attempt m w).1
unfolding attempt
Viewed-attempt m w quiet = record { files = λ q. quiet.disk w q tt; events = quiet.trail w }

Quiet-read_exclusions_file : (p : FilePath) → Quiet (λ q. Unit {0}) (read_exclusions_file p)
unfolding read_exclusions_file
Quiet-read_exclusions_file p = search quiet_rules

Quiet-read_ip_rules_file : (p : FilePath) → Quiet (λ q. Unit {0}) (read_ip_rules_file p)
unfolding read_ip_rules_file
Quiet-read_ip_rules_file p = search quiet_rules

Quiet-read :
    (formats : Formats) (opts : Options) (p : FilePath)
    → Quiet (λ q. Unit {0}) (read formats opts p)
unfolding read
Quiet-read formats opts p = search quiet_rules

Viewed-sorted_sites :
    (clock : Clock) (ctx : Context) (w : World) → Viewed w (sorted_sites clock ctx w).1
unfolding sorted_sites
Viewed-sorted_sites clock ctx w = Viewed-attempt _ w (Quiet-scan_sites clock _)

Viewed-read_overlay : (p : FilePath) (w : World) → Viewed w (read_overlay p w).1
unfolding read_overlay
Viewed-read_overlay p w = Viewed-attempt _ w (Quiet-read_file p)

IsView-count_exclusions : (p : FilePath) (counts : Counts) → IsView (count_exclusions p counts)
unfolding count_exclusions
IsView-count_exclusions p counts = record {
  from = λ w. Viewed-attempt _ w (Quiet-read_exclusions_file p);
}

IsView-count_rules : (p : FilePath) (counts : Counts) → IsView (count_rules p counts)
unfolding count_rules
IsView-count_rules p counts = record { from = λ w. Viewed-attempt _ w (Quiet-read_ip_rules_file p) }

IsView-count_entry :
    (ctx : Context) (name : Bytes) (counts : Counts) → IsView (count_entry ctx name counts)
unfolding count_entry
IsView-count_entry ctx name counts =
    let p = in_managed ctx name in
    IsView-if (is_named file_type_exclusions name) (count_exclusions p counts)
      (if is_named file_type_ip_rules name then count_rules p counts else (λ w. (counts, w)))
      (IsView-count_exclusions p counts)
      (IsView-if (is_named file_type_ip_rules name) (count_rules p counts) (λ w. (counts, w))
        (IsView-count_rules p counts) (IsView-here counts))

Viewed-count_entries :
    (ctx : Context) (names : List Bytes) (counts : Counts) (w : World)
    → Viewed w (count_entries ctx names counts w).1
unfolding count_entries
Viewed-count_entries ctx [] counts w = Viewed-refl w
Viewed-count_entries ctx (name ∷ names) counts w =
    let (more, v) = count_entry ctx name counts w in
    Viewed-trans w v _ ((IsView-count_entry ctx name counts).from w)
      (Viewed-count_entries ctx names more v)

Viewed-count_overlays : (ctx : Context) (w : World) → Viewed w (count_overlays ctx w).1
unfolding count_overlays
Viewed-count_overlays ctx w =
    let (names, v) = attempt (read_dir (managed_dir ctx.env)) w in
    Viewed-trans w v _ (Viewed-attempt _ w (Quiet-read_dir (managed_dir ctx.env)))
      (Viewed-count_entries ctx (or_default [] names) no_counts v)

IsView-load_logs :
    (sources : Sources) (ctx : Context) (query : Bytes → Bytes)
    → IsView (load_logs sources ctx query)
unfolding load_logs
IsView-load_logs sources ctx query = record {
  from = λ w. Viewed-attempt _ w (Quiet-read sources.formats _ sources.audit_log);
}

IsView-load_tab_logs :
    (sources : Sources) (ctx : Context) (tab : Bytes) (query : Bytes → Bytes)
    → IsView (load_tab_logs sources ctx tab query)
unfolding load_tab_logs
IsView-load_tab_logs sources ctx tab query =
    IsView-if (beq tab (str "logs")) (load_logs sources ctx query) (λ w. (no_log_data, w))
      (IsView-load_logs sources ctx query) (IsView-here no_log_data)

IsView-load_backups : (ctx : Context) (site : Site) → IsView (load_backups ctx site)
unfolding load_backups
IsView-load_backups ctx site = record {
  from = λ w. Viewed-attempt _ w (Quiet-list_backups ctx site.domain);
}

IsView-load_snapshots :
    (ctx : Context) (tab : Bytes) (site : Option Site) → IsView (load_snapshots ctx tab site)
unfolding load_snapshots
IsView-load_snapshots ctx tab none = IsView-here []
IsView-load_snapshots ctx tab (some site) =
    IsView-if (beq tab (str "rollback")) (load_backups ctx site) (λ w. ([], w))
      (IsView-load_backups ctx site) (IsView-here [])

Viewed-load_site : (ctx : Context) (d : Bytes) (w : World) → Viewed w (load_site ctx d w).1
unfolding load_site read_exclusions read_ip_rules
Viewed-load_site ctx d w = Viewed-trans w _ _ (Viewed-read_overlay _ w) (
    Viewed-trans _ _ _ (Viewed-read_overlay _ _) (
      Viewed-trans _ _ _ (Viewed-read_overlay _ _) (
        Viewed-trans _ _ _ (Viewed-attempt _ _ (Quiet-read_exclusions_file _))
          (Viewed-attempt _ _ (Quiet-read_ip_rules_file _)))))

Viewed-load_current :
    (ctx : Context) (site : Option Site) (w : World) → Viewed w (load_current ctx site w).1
unfolding load_current
Viewed-load_current ctx none w = Viewed-refl w
Viewed-load_current ctx (some site) w = Viewed-load_site ctx site.domain w

Viewed-build_page_data :
    (sources : Sources) (ctx : Context) (r : Request) (tab : Bytes) (sites : List Site) (w : World)
    → Viewed w (build_page_data sources ctx r tab sites w).1
unfolding build_page_data
Viewed-build_page_data sources ctx r tab sites w =
    Viewed-trans w _ _ ((IsView-load_tab_logs sources ctx tab r.query).from w) (
      Viewed-trans _ _ _ (Viewed-load_current ctx _ _) (
        Viewed-trans _ _ _ ((IsView-load_snapshots ctx tab _).from _)
          (Viewed-count_overlays ctx _)))

Viewed-show_index :
    (sources : Sources) (templates : Templates) (ctx : Context) (r : Request) (w : World)
    → Viewed w (show_index sources templates ctx r w).1
unfolding show_index
Viewed-show_index sources templates ctx r w =
    Viewed-trans w _ _ (Viewed-sorted_sites sources.clock ctx w) (
      Viewed-build_page_data sources ctx r (tab_of (r.query (str "tab")))
        (sorted_sites sources.clock ctx w).0 _)

pub IsView-handle_index :
    (sources : Sources) (templates : Templates) (ctx : Context) (r : Request)
    → IsView (handle_index sources templates ctx r)
unfolding handle_index
IsView-handle_index sources templates ctx r =
    IsView-if (not (beq (r.query (str "flash")) []))
      (λ w. (consume (r.query (str "flash")) (clean_url r.query), w))
      (show_index sources templates ctx r)
      (IsView-here (consume (r.query (str "flash")) (clean_url r.query)))
      (record { from = Viewed-show_index sources templates ctx r })
