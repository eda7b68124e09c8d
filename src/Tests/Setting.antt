-- ===== src/Tests/Setting.antt =====
-- A small world: an environment with the defaults, a disk with one overlay and one snapshot.
use caddy_waf_ui.Prelude.{refl, [], ◌∷◌}
use caddy_waf_ui.Text.{Bytes, str}
use caddy_waf_ui.Errors.{ok, err, reload_failure}
use caddy_waf_ui.System.{World, Context, works, fails}
use caddy_waf_ui.System.Store.{FilePath}
use caddy_waf_ui.Service.Chain.{Reloader}

abbrev pub site_name : Bytes
site_name = str "api.example.com"

abbrev pub context : Context
context = record {
  env = λ key. [];
  stamp = str "2026-08-07T15-52-13Z";
  now = str "2026-08-07T15:52:13Z";
  random = str "17";
}

abbrev pub overlay_file : FilePath
overlay_file = record { dir = str "/ui-managed"; name = str "waf-api_example_com.conf" }

abbrev pub old_snapshot : FilePath
old_snapshot = record {
  dir = str "/backups/api_example_com";
  name = str "2026-08-01T00-00-00Z.waf.conf";
}

-- The first calls work, and the eighth fails in the middle.
abbrev pub world : World
world = record {
  disk = (overlay_file, str "old") ∷ (old_snapshot, str "older") ∷ [];
  outcomes = works ∷ works ∷ works ∷ works ∷ works ∷ works ∷ works ∷ fails 2 ∷ [];
  trail = [];
}

abbrev pub quiet_world : World
quiet_world = record world { outcomes = [] }

abbrev pub accepting : Reloader
accepting = record { run = λ w. (ok tt, w); keeps_disk = λ w. refl; keeps_trail = λ w. refl }

abbrev pub refusing : Reloader
refusing = record {
  run = λ w. (err (reload_failure (str "refused")), w);
  keeps_disk = λ w. refl;
  keeps_trail = λ w. refl;
}
