-- ===== src/Tests/Program.antt =====
-- The whole program at a form that is posted without the CSRF field, and at a call of the API.
use mathlib.Core.Bool.{false≢true}
use caddy_waf_ui.Prelude.{◌⊎◌, ◌≡◌, if◌then◌else◌, refl, false, none, some, []}
use caddy_waf_ui.Text.{str, beq, has_prefix, split}
use caddy_waf_ui.Text.Laws.{beq_iff}
use caddy_waf_ui.System.{World, Context}
use caddy_waf_ui.System.Unmarked.{Unmarked}
use caddy_waf_ui.Config.{managed_dir, backup_dir}
use caddy_waf_ui.Files.Naming.{backup_dir_path}
use caddy_waf_ui.Service.Updates.Modes.{Apart}
use caddy_waf_ui.Web.Stack.{route, to_api}
use caddy_waf_ui.Ui.Router.{endpoint, set_mode, found, api_route}
use caddy_waf_ui.Ui.Program.Modes.{Told, program-Told}
use caddy_waf_ui.IpRules.{Net}
use caddy_waf_ui.Logs.Entry.{Formats, at_end}
use caddy_waf_ui.Web.Http.{Request, Handler, plain}
use caddy_waf_ui.Web.Limits.{start_server}
use caddy_waf_ui.Ui.Api.{Codec, value, needs_more}
use caddy_waf_ui.Ui.Pages.Data.{Sources}
use caddy_waf_ui.Ui.Pages.Serve.{Templates, page}
use caddy_waf_ui.Ui.Pages.Viewing.{Viewed}
use caddy_waf_ui.Ui.Program.{Parts, program}
use caddy_waf_ui.Ui.Program.Access.{MayWrite, program-Access}
use caddy_waf_ui.Tests.Setting.{site_name, context, world, accepting}

abbrev with_token : Context
with_token = record context {
  env = λ key. if beq key (str "CADDY_UI_TOKEN") then str "s3cret" else [];
}

abbrev formats : Formats
formats = record {
  unmarshal = λ raw. none;
  decode = λ raw. at_end;
  apache_to_rfc = λ ts. none;
  unix_to_rfc = λ n. str "1970";
}

abbrev sources : Sources
sources = record {
  clock = λ raw. some raw;
  formats = formats;
  mac = λ secret message. str "abcd";
  audit_log = record { dir = str "/var/log"; name = str "audit.log" };
  readback = record { verified = false; servers = 0; missing = [] };
}

abbrev templates : Templates
templates name shown = page name

abbrev codec : Codec
codec = record {
  mode = λ body. value body;
  exclusions = λ body. needs_more;
  ip_rules = λ body. needs_more;
  backup = λ body. needs_more;
  snapshots = λ infos. str "[]";
  error_text = λ e. str "invalid";
}

abbrev net : Net
net = record { parse_cidr = λ entry. none; parse_ip = λ entry. none }

abbrev file_server : Handler World
file_server now r s = (plain 200, s)

abbrev parts : Parts
parts = record {
  sources = sources;
  templates = templates;
  codec = codec;
  net = net;
  reloader = accepting;
  file_server = file_server;
}

abbrev request : Request
request = record {
  method = str "POST";
  path = str "/sites/api.example.com/mode";
  remote_addr = str "10.0.0.9:4711";
  authorization = [];
  forwarded_proto = [];
  session_cookie = some (str "s3cret");
  flash_cookie = none;
  form = λ key. [];
  query = λ key. [];
  body = [];
}

program-Access_example :
    Viewed world (program parts with_token 9 request (start_server 7 world)).1.app
    ⊎ MayWrite sources.mac with_token.env request
unfolding start_server
program-Access_example =
    program-Access parts with_token (λ now r s. refl) 9 request (start_server 7 world)

abbrev mode_request : Request
mode_request = record request {
  method = str "PUT";
  path = str "/api/sites/api.example.com/mode";
  authorization = str "Bearer s3cret";
  body = str "On";
}

token_dir-Apart : Apart with_token site_name
unfolding managed_dir backup_dir backup_dir_path caddy_waf_ui.Config.env_or beq
token_dir-Apart same = false≢true ((beq_iff _ _).1 same)

accepting-Unmarked : Unmarked accepting.run
accepting-Unmarked = record { result = λ w. tt }

to_the_api : route mode_request.path ≡ to_api
unfolding route beq has_prefix
to_the_api = refl

to_the_mode : api_route mode_request.method mode_request.path ≡ found set_mode site_name
unfolding api_route endpoint split beq
to_the_mode = refl

program-Told_example :
    Told parts with_token site_name accepting-Unmarked token_dir-Apart mode_request world
      (program parts with_token 9 mode_request (start_server 7 world)).0.status
      (program parts with_token 9 mode_request (start_server 7 world)).1.app
unfolding start_server
program-Told_example =
    program-Told parts with_token site_name accepting-Unmarked token_dir-Apart 9 mode_request
      (start_server 7 world) to_the_api to_the_mode
