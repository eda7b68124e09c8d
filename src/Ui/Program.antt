-- ===== src/Ui/Program.antt =====
-- `buildHandler` of cmd/server/main.go with the muxes of internal/ui that it mounts, and `StaticHandler` of
-- internal/ui/static.go.
pub mod Reading
pub mod Access
pub mod Modes
use caddy_waf_ui.Prelude.{[], ◌||◌, if◌then◌else◌}
use caddy_waf_ui.Text.{str, beq, has_suffix}
use caddy_waf_ui.System.{World, Context}
use caddy_waf_ui.IpRules.{Net}
use caddy_waf_ui.Service.Chain.{Reloader}
use caddy_waf_ui.Web.Http.{Handler}
use caddy_waf_ui.Web.Reply.{http_error}
use caddy_waf_ui.Web.Stack.{Muxes, build_handler}
use caddy_waf_ui.Ui.Api.{Codec}
use caddy_waf_ui.Ui.Router.{new_router, health_handler}
use caddy_waf_ui.Ui.Pages.Data.{Sources}
use caddy_waf_ui.Ui.Pages.Serve.{Templates, new_pages_mux, new_login_mux}

-- What the program uses from outside: the handlers' parameters and the server of the embedded files.
pub record Parts : Type 0 where
  pub sources : Sources
  pub templates : Templates
  pub codec : Codec
  pub net : Net
  pub reloader : Reloader
  pub file_server : Handler World

-- `StaticHandler`: no listing of a directory.
unfoldable pub static_handler : Handler World → Handler World
unfolding beq has_suffix
static_handler file_server now r s =
    if beq r.path [] || has_suffix r.path (str "/")
    then (http_error 404 (str "404 page not found"), s)
    else file_server now r s

abbrev pub mounted : Parts → Context → Muxes World
mounted parts ctx = record {
  login_mux = new_login_mux parts.sources parts.templates parts.reloader parts.net ctx;
  static_handler = static_handler parts.file_server;
  pages_mux = new_pages_mux parts.sources parts.templates parts.reloader parts.net ctx;
  router = new_router parts.reloader parts.codec parts.net ctx;
  health_handler = health_handler;
}

unfoldable pub program : Parts → Context → Handler World
unfolding build_handler
program parts ctx = build_handler parts.sources.mac ctx.env (mounted parts ctx)
