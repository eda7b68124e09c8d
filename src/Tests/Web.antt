-- ===== src/Tests/Web.antt =====
-- Requests to the program at concrete inputs.
use caddy_waf_ui.Prelude.{ℕ, ◌+◌, ◌≡◌, ◌⊎◌, some, none, [], if◌then◌else◌}
use caddy_waf_ui.Text.{str, beq}
use caddy_waf_ui.Config.{Env}
use caddy_waf_ui.Web.Http.{Request, Handler, plain}
use caddy_waf_ui.Web.Auth.{Mac}
use caddy_waf_ui.Web.Limits.{start_server}
use caddy_waf_ui.Web.Stack.{Muxes, pages}
use caddy_waf_ui.Web.Guards.{Guarded, HasSession, MayMutate, pages-Guarded}

abbrev env : Env
env key = str "s3cret"

abbrev mac : Mac
mac secret message = str "abcd"

-- Every handler counts its calls.
abbrev counting : Handler ℕ
counting now r s = (plain 200, record s { app = s.app + 1 })

abbrev muxes : Muxes ℕ
muxes = record {
  login_mux = counting;
  static_handler = counting;
  pages_mux = counting;
  router = counting;
  health_handler = counting;
}

abbrev request : Request
request = record {
  method = str "POST";
  path = str "/sites/example.com/mode";
  remote_addr = str "10.0.0.9:4711";
  authorization = [];
  forwarded_proto = [];
  session_cookie = some (str "s3cret");
  flash_cookie = none;
  form = λ key. if beq key (str "csrf") then str "abcd" else [];
  query = λ key. [];
  body = [];
}

pages-Guarded_example :
    Guarded
      (HasSession env request × MayMutate mac env request)
      (λ n. (n ≡ 302) ⊎ (n ≡ 403))
      (counting 9 request (start_server 7 0))
      (start_server 7 0).app
      (pages mac env muxes 9 request (start_server 7 0))
pages-Guarded_example = pages-Guarded mac env muxes 9 request (start_server 7 0)
