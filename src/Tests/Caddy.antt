-- ===== src/Tests/Caddy.antt =====
-- A reload at concrete inputs.
use caddy_waf_ui.Prelude.{some, false, [], ◌∷◌}
use caddy_waf_ui.Text.{str}
use caddy_waf_ui.Service.Chain.{Reloader}
use caddy_waf_ui.Caddy.{
  Json, text, array, object, no_item, item, no_member, member, Admin, replied, reload,
}
use caddy_waf_ui.Caddy.Verified.{Stepped, reload-Stepped, caddy_reloader}
use caddy_waf_ui.Tests.Setting.{world, overlay_file}

-- A live configuration with one host.
abbrev config : Json
config = object (
    member (str "srv0")
      (object (member (str "host") (array (item (text (str "a.com")) no_item)) no_member))
      no_member)

abbrev pub admin : Admin
admin = record {
  parse_url =
      λ raw. some (record { scheme = str "http"; host = str "caddy-waf:2019"; has_user = false });
  site_groups = λ caddyfile. str "a.com, :80" ∷ [];
  load = λ url caddyfile. replied 200 [];
  live_config = λ url. replied 200 (some config);
}

abbrev pub live_reloader : Reloader
live_reloader = caddy_reloader admin (str "http://caddy-waf:2019") overlay_file

reload-Stepped_example :
    Stepped admin
      (str "http://caddy-waf:2019")
      overlay_file
      world
      (reload admin (str "http://caddy-waf:2019") overlay_file world)
reload-Stepped_example = reload-Stepped admin (str "http://caddy-waf:2019") overlay_file world
