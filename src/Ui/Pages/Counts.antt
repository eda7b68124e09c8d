-- ===== src/Ui/Pages/Counts.antt =====
-- `countOverlays` of internal/ui/pages.go.
use caddy_waf_ui.Prelude.{
  ℕ, ◌+◌, Bool, ◌&&◌, Option, none, some, List, [], ◌∷◌, ◌++◌, length, if◌then◌else◌,
}
use caddy_waf_ui.Text.{Bytes, str, has_prefix, has_suffix}
use caddy_waf_ui.System.{World, Context}
use caddy_waf_ui.System.Store.{FilePath}
use caddy_waf_ui.System.Calls.{read_dir}
use caddy_waf_ui.Config.{managed_dir}
use caddy_waf_ui.Files.Naming.{file_type_exclusions, file_type_ip_rules}
use caddy_waf_ui.Waf.Exclusions.{Exclusion}
use caddy_waf_ui.IpRules.{IpRules}
use caddy_waf_ui.Ui.Overlay.{read_exclusions_file, read_ip_rules_file}
use caddy_waf_ui.Ui.Pages.{attempt, or_default}

pub record Counts : Type 0 where
  pub exclusions : ℕ
  pub ip_rules : ℕ
  pub deny : ℕ
  pub allow : ℕ

abbrev pub no_counts : Counts
no_counts = record { exclusions = 0; ip_rules = 0; deny = 0; allow = 0 }

abbrev pub is_named : Bytes → Bytes → Bool
is_named file_type name = has_prefix name (file_type ++ str "-") && has_suffix name (str ".conf")

abbrev pub with_exclusions : Option (List Exclusion) → Counts → Counts
with_exclusions none counts = counts
with_exclusions (some exs) counts = record counts { exclusions = counts.exclusions + length exs }

abbrev pub with_rules : Option IpRules → Counts → Counts
with_rules none counts = counts
with_rules (some rules) counts = record {
  exclusions = counts.exclusions;
  ip_rules = counts.ip_rules + (length rules.denylist + length rules.allowlist);
  deny = counts.deny + length rules.denylist;
  allow = counts.allow + length rules.allowlist;
}

abbrev counted :
    {A : Type 0} → (Option A → Counts → Counts) → Option A × World → Counts → Counts × World
counted add (found, v) counts = (add found counts, v)

-- A file that cannot be read adds nothing.
unfoldable pub count_exclusions : FilePath → Counts → World → Counts × World
unfolding attempt
count_exclusions path counts w =
    counted with_exclusions (attempt (read_exclusions_file path) w) counts

unfoldable pub count_rules : FilePath → Counts → World → Counts × World
unfolding attempt
count_rules path counts w = counted with_rules (attempt (read_ip_rules_file path) w) counts

abbrev pub in_managed : Context → Bytes → FilePath
in_managed ctx name = record { dir = managed_dir ctx.env; name = name }

-- The switch on the name of an entry.
unfoldable pub count_entry : Context → Bytes → Counts → World → Counts × World
unfolding count_exclusions count_rules
count_entry ctx name counts =
    if is_named file_type_exclusions name
    then count_exclusions (in_managed ctx name) counts
    else if is_named file_type_ip_rules name
    then count_rules (in_managed ctx name) counts
    else (λ w. (counts, w))

unfoldable pub count_entries : Context → List Bytes → Counts → World → Counts × World
unfolding count_entry
count_entries ctx [] counts w = (counts, w)
count_entries ctx (name ∷ names) counts w =
    let (more, v) = count_entry ctx name counts w in count_entries ctx names more v

unfoldable pub count_overlays : Context → World → Counts × World
unfolding attempt count_entries
count_overlays ctx w =
    let (names, v) = attempt (read_dir (managed_dir ctx.env)) w in
    count_entries ctx (or_default [] names) no_counts v
