-- ===== src/Ui/Router.antt =====
-- internal/ui/router.go: the routes of the management API, and the health check.
use caddy_waf_ui.Prelude.{Bool, Option, none, some, List, [], ◌∷◌, ◌||◌, not, false, if◌then◌else◌}
use caddy_waf_ui.Text.{Bytes, str, beq, split}
use caddy_waf_ui.System.{World, Context}
use caddy_waf_ui.IpRules.{Net}
use caddy_waf_ui.Service.Chain.{Reloader}
use caddy_waf_ui.Web.Http.{Request, Answer, Handler}
use caddy_waf_ui.Web.Reply.{http_error, write_json}
use caddy_waf_ui.Ui.Api.{
  Codec, handle_set_mode, handle_set_exclusions, handle_set_ip_rules, handle_list_backups,
  handle_rollback,
}

pub data Endpoint : Type 0 where
  set_mode set_exclusions set_ip_rules show_backups roll_back : Endpoint

-- The pattern whose path matches, with its method.
unfoldable pub endpoint : Bytes → Option (Bytes × Endpoint)
unfolding beq
endpoint name =
    if beq name (str "mode")
    then some (str "PUT", set_mode)
    else if beq name (str "exclusions")
    then some (str "PUT", set_exclusions)
    else if beq name (str "iprules")
    then some (str "PUT", set_ip_rules)
    else if beq name (str "backups")
    then some (str "GET", show_backups)
    else if beq name (str "rollback")
    then some (str "POST", roll_back)
    else none

-- A pattern with GET also serves HEAD.
abbrev pub serves : Bytes → Bytes → Bool
serves wanted method =
    beq wanted method || (if beq wanted (str "GET") then beq method (str "HEAD") else false)

abbrev pub allowed : Bytes → Bytes
allowed wanted = if beq wanted (str "GET") then str "GET, HEAD" else wanted

pub data ApiRoute : Type 0 where
  found : Endpoint → Bytes → ApiRoute
  other_method : Bytes → ApiRoute
  no_route : ApiRoute

abbrev pub at_endpoint : Bytes → Bytes → Option (Bytes × Endpoint) → ApiRoute
at_endpoint method domain_name none = no_route
at_endpoint method domain_name (some (wanted, e)) =
    if serves wanted method then found e domain_name else other_method wanted

-- "/api/sites/{domain}/NAME" of a clean path; the segment of the domain is not empty.
abbrev pub at_segments : Bytes → List Bytes → ApiRoute
at_segments method ([] ∷ (api ∷ (sites ∷ (domain_name ∷ (name ∷ []))))) =
    if not (beq api (str "api")) || (not (beq sites (str "sites")) || beq domain_name [])
    then no_route
    else at_endpoint method domain_name (endpoint name)
at_segments method _ = no_route

unfoldable pub api_route : Bytes → Bytes → ApiRoute
unfolding endpoint split beq
api_route method path = at_segments method (split path b'/')

abbrev pub not_allowed : Bytes → Answer
not_allowed methods =
    let answer = http_error 405 (str "Method Not Allowed") in
    record answer { headers = (str "Allow", methods) ∷ answer.headers }

module _ (reloader : Reloader) (codec : Codec) (net : Net) (ctx : Context) where
  unfoldable pub serve : ApiRoute → Request → World → Answer × World
  unfolding handle_set_mode handle_set_exclusions handle_set_ip_rules handle_list_backups
      handle_rollback
  serve (found set_mode d) r = handle_set_mode reloader codec net ctx d r
  serve (found set_exclusions d) r = handle_set_exclusions reloader codec net ctx d r
  serve (found set_ip_rules d) r = handle_set_ip_rules reloader codec net ctx d r
  serve (found show_backups d) r = handle_list_backups reloader codec net ctx d r
  serve (found roll_back d) r = handle_rollback reloader codec net ctx d r
  serve (other_method wanted) r = λ w. (not_allowed (allowed wanted), w)
  serve no_route r = λ w. (http_error 404 (str "404 page not found"), w)

  unfoldable pub new_router : Handler World
  unfolding api_route serve
  new_router now r s =
      let (answer, w) = serve (api_route r.method r.path) r s.app in (answer, record s { app = w })

unfoldable pub health_handler : {W : Type 0} → Handler W
health_handler now r s = (write_json 200 (str "{\"status\":\"ok\"}"), s)
