-- ===== src/Ui/Pages/Serve.antt =====
-- The handlers and muxes of internal/ui/pages.go.
use caddy_waf_ui.Prelude.{
  Bool, false, not, ◌||◌, Option, none, some, List, [], ◌∷◌, ◌++◌, if◌then◌else◌,
}
use caddy_waf_ui.Text.{Bytes, str, beq, split}
use caddy_waf_ui.System.{World, Context}
use caddy_waf_ui.IpRules.{Net}
use caddy_waf_ui.Service.Chain.{Reloader}
use caddy_waf_ui.Web.Http.{Request, Answer, Handler}
use caddy_waf_ui.Web.Auth.{has_valid_session}
use caddy_waf_ui.Web.Reply.{http_error, redirect, set_cookie, cookie_text}
use caddy_waf_ui.Ui.Forms.{
  handle_login, handle_logout, handle_form_set_mode, handle_form_add_exclusion,
  handle_form_add_ip_rule, handle_form_rollback,
}
use caddy_waf_ui.Ui.Router.{not_allowed}
use caddy_waf_ui.Ui.Pages.{
  flash_message, flash_type, flash_cookie, taken_cookie, clean_url, sorted_sites,
}
use caddy_waf_ui.Ui.Pages.Data.{PageData, Sources, build_page_data, blank_page}

-- What a template writes: a page, or a part of one before its error.
pub data Rendering : Type 0 where
  page : Bytes → Rendering
  broken_off : Bytes → Rendering

-- Package template on the embedded files, by the names of their pages.
abbrev pub Templates : Type 0
Templates = Bytes → PageData → Rendering

abbrev page_names : List Bytes
page_names =
    str "overview"
    ∷ (str "sites" ∷ (str "exclusions" ∷ (str "iprules" ∷ (str "logs" ∷ (str "rollback" ∷ [])))))

abbrev is_one_of : List Bytes → Bytes → Bool
is_one_of [] name = false
is_one_of (page_name ∷ more) name = beq page_name name || is_one_of more name

-- The map of templates: one for each page, and the login's.
unfoldable pub parse_templates : Templates → Bytes → Option (PageData → Rendering)
unfolding beq
parse_templates templates name =
    if beq name (str "login") || is_one_of page_names name then some (templates name) else none

abbrev internal_error : Answer
internal_error = http_error 500 (str "Internal error rendering the page")

abbrev html : Bytes → Answer
html body = record {
  status = 200;
  headers = (str "Content-Type", str "text/html; charset=utf-8") ∷ [];
  body = body;
}

-- Behind a part of a page the status is sent already, and the text of the error joins the body.
abbrev of_rendering : Rendering → Answer
of_rendering (page body) = html body
of_rendering (broken_off []) = internal_error
of_rendering (broken_off (c ∷ s)) = html ((c ∷ s) ++ internal_error.body)

-- `executePage` with the answer of its callers to an error.
unfoldable pub execute_page : Templates → Bytes → PageData → Answer
unfolding parse_templates
execute_page templates name shown = elim (parse_templates templates name) [
  | none ↦ internal_error
  | some template ↦ of_rendering (template shown)
]

abbrev with_flash : Bytes → PageData → PageData
with_flash key shown = record shown { flash = flash_message key; flash_kind = flash_type key }

-- The flash of the cookie, which is taken away.
unfoldable pub flashed : Templates → Bytes → Option Bytes → PageData → Answer
unfolding execute_page cookie_text flash_message flash_type
flashed templates name none shown = execute_page templates name shown
flashed templates name (some key) shown =
    set_cookie taken_cookie (execute_page templates name (with_flash key shown))

-- The redirection that carries the flash from the URL into the cookie.
abbrev pub consume : Bytes → Bytes → Answer
consume key location = set_cookie (flash_cookie key) (redirect location 302)

abbrev pub tab_of : Bytes → Bytes
tab_of [] = str "overview"
tab_of (c ∷ s) = c ∷ s

module _ (sources : Sources) (templates : Templates) (ctx : Context) where
  unfoldable pub show_index : Request → World → Answer × World
  unfolding sorted_sites build_page_data flashed
  show_index r w =
      let tab = tab_of (r.query (str "tab")) in
      let (sites, w1) = sorted_sites sources.clock ctx w in
      let (shown, w2) = build_page_data sources ctx r tab sites w1 in
      (flashed templates tab r.flash_cookie shown, w2)

  unfoldable pub handle_index : Request → World → Answer × World
  unfolding show_index clean_url cookie_text beq
  handle_index r =
      let key = r.query (str "flash") in
      if not (beq key []) then (λ w. (consume key (clean_url r.query), w)) else show_index r

  unfoldable pub handle_login_page : Request → Answer
  unfolding has_valid_session flashed cookie_text beq
  handle_login_page r =
      let key = r.query (str "flash") in
      if has_valid_session ctx.env r
      then redirect (str "/") 302
      else if not (beq key [])
      then consume key (str "/login")
      else flashed templates (str "login") r.flash_cookie blank_page

pub data PageRoute : Type 0 where
  index out : PageRoute
  bad_method : Bytes → PageRoute
  set_mode add_exclusion add_ip_rule roll_back : Bytes → PageRoute

abbrev form_of : Bytes → Bytes → Option PageRoute
form_of domain_name name =
    if beq name (str "mode")
    then some (set_mode domain_name)
    else if beq name (str "exclusions")
    then some (add_exclusion domain_name)
    else if beq name (str "iprules")
    then some (add_ip_rule domain_name)
    else if beq name (str "rollback")
    then some (roll_back domain_name)
    else none

-- The form that is posted to a path.
abbrev pub posted : List Bytes → Option PageRoute
posted ([] ∷ (sites ∷ (domain_name ∷ (name ∷ [])))) =
    if not (beq sites (str "sites")) || beq domain_name [] then none else form_of domain_name name
posted ([] ∷ (name ∷ [])) = if beq name (str "logout") then some out else none
posted _ = none

abbrev get_only : Option PageRoute → PageRoute
get_only none = bad_method (str "GET, HEAD")
get_only (some form) = form

abbrev pub other_methods : Option PageRoute → PageRoute
other_methods none = bad_method (str "GET, HEAD")
other_methods (some form) = bad_method (str "GET, HEAD, POST")

abbrev is_get : Bytes → Bool
is_get method = beq method (str "GET") || beq method (str "HEAD")

-- "GET /" serves every path; a form is served to POST on its own path.
unfoldable pub page_route : Bytes → Bytes → PageRoute
unfolding beq split
page_route method path =
    let form = posted (split path b'/') in
    if is_get method
    then index
    else if beq method (str "POST")
    then get_only form
    else other_methods form

module _ (sources : Sources) (templates : Templates) (reloader : Reloader) (net : Net)
    (ctx : Context) where
  unfoldable pub serve_page : PageRoute → Request → World → Answer × World
  unfolding handle_index handle_logout handle_form_set_mode handle_form_add_exclusion
      handle_form_add_ip_rule handle_form_rollback
  serve_page index r = handle_index sources templates ctx r
  serve_page out r = λ w. (handle_logout, w)
  serve_page (bad_method allowed) r = λ w. (not_allowed allowed, w)
  serve_page (set_mode d) r = handle_form_set_mode reloader net ctx d r
  serve_page (add_exclusion d) r = handle_form_add_exclusion reloader net ctx d r
  serve_page (add_ip_rule d) r = handle_form_add_ip_rule reloader net ctx d r
  serve_page (roll_back d) r = handle_form_rollback reloader net ctx d r

  unfoldable pub new_pages_mux : Handler World
  unfolding page_route serve_page
  new_pages_mux now r s =
      let (answer, w) = serve_page (page_route r.method r.path) r s.app in
      (answer, record s { app = w })

  -- The mux is mounted at "/login" alone.
  unfoldable pub new_login_mux : Handler World
  unfolding handle_login_page handle_login beq
  new_login_mux now r s =
      if is_get r.method
      then (handle_login_page sources templates ctx r, s)
      else if beq r.method (str "POST")
      then (handle_login ctx.env r, s)
      else (not_allowed (str "GET, HEAD, POST"), s)
