-- ===== src/Tests/Register.antt =====
-- Two calls of `UpdateWAFMode` at a concrete world: the first is applied, and Caddy refuses the second.
use caddy_waf_ui.Prelude.{◌⊎◌, ◌≡◌, List, [], ◌∷◌}
use caddy_waf_ui.Text.{str}
use caddy_waf_ui.System.Store.{lookup}
use caddy_waf_ui.Config.{managed_dir}
use caddy_waf_ui.Files.Naming.{waf_config_path}
use caddy_waf_ui.Service.Updates.Register.{
  ModeCall, run_calls, view, Runs, run_calls-Runs, settled, AnyLost, run_calls-settled,
}
use caddy_waf_ui.Tests.Setting.{site_name, context, world, accepting, refusing}
use caddy_waf_ui.Tests.Service.{managed_dir-Apart}

abbrev switched_on : ModeCall
switched_on = record {
  mode = str "On";
  remote_ip = str "10.0.0.9";
  stamp = context.stamp;
  now = context.now;
  random = str "17";
  reloader = accepting;
}

abbrev switched_off : ModeCall
switched_off = record switched_on {
  mode = str "Off";
  stamp = str "2026-08-07T15-53-00Z";
  now = str "2026-08-07T15:53:00Z";
  reloader = refusing;
}

abbrev calls : List ModeCall
calls = switched_on ∷ (switched_off ∷ [])

run_calls-Runs_example :
    Runs context.env site_name calls
      (view context.env site_name world)
      (run_calls context.env site_name calls world).0
      (view context.env site_name (run_calls context.env site_name calls world).1)
run_calls-Runs_example = run_calls-Runs context.env site_name managed_dir-Apart calls world

run_calls-settled_example :
    AnyLost context.env site_name (run_calls context.env site_name calls world).0
    ⊎ (lookup
          (waf_config_path (managed_dir context.env) site_name)
          (run_calls context.env site_name calls world).1.disk
        ≡ settled context.env site_name
            (lookup (waf_config_path (managed_dir context.env) site_name) world.disk)
            calls
            (run_calls context.env site_name calls world).0)
run_calls-settled_example = run_calls-settled context.env site_name managed_dir-Apart calls world
