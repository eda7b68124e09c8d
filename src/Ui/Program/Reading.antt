-- ===== src/Ui/Program/Reading.antt =====
-- Requests with a safe method, as the muxes of internal/ui serve them.
use caddy_waf_ui.Prelude.{
  ◌≡◌, ◌⊎◌, inl, inr, refl, Bool, true, false, not, ◌||◌, Option, none, some, List, [], ◌∷◌, arith,
  if◌then◌else◌, Bool-cases,
}
use caddy_waf_ui.Text.{Bytes, str, beq, split}
use caddy_waf_ui.Text.Laws.{beq_iff}
use caddy_waf_ui.System.{Context}
use caddy_waf_ui.IpRules.{Net}
use caddy_waf_ui.Service.Chain.{Reloader}
use caddy_waf_ui.Files.Listing.Quiets.{Quiet-list_backups}
use caddy_waf_ui.Web.Http.{Request}
use caddy_waf_ui.Web.Reply.{http_error}
use caddy_waf_ui.Web.Auth.{is_safe_method}
use caddy_waf_ui.Ui.Api.{Codec, handle_list_backups}
use caddy_waf_ui.Ui.Router.{
  Endpoint, set_mode, set_exclusions, set_ip_rules, show_backups, roll_back, endpoint, ApiRoute,
  not_allowed, allowed, found, other_method, no_route, serves, at_endpoint, at_segments, api_route,
  serve,
}
use caddy_waf_ui.Ui.Pages.Data.{Sources}
use caddy_waf_ui.Ui.Pages.Serve.{
  Templates, PageRoute, index, bad_method, posted, other_methods, page_route, serve_page,
}
use caddy_waf_ui.Ui.Pages.{attempt}
use caddy_waf_ui.Ui.Pages.Viewing.{Viewed-attempt, IsView, IsView-here, IsView-handle_index}

abbrev pub IsSafe : Bytes → Type 0
IsSafe m = (m ≡ str "GET") ⊎ ((m ≡ str "HEAD") ⊎ (m ≡ str "OPTIONS"))

pub IsSafe-is_safe_method : (m : Bytes) → is_safe_method m ≡ true → IsSafe m
IsSafe-is_safe_method m h =
    ground (arith, beq_iff m (str "GET"), beq_iff m (str "HEAD"), beq_iff m (str "OPTIONS"))

endpoint_cases :
    (name : Bytes)
    → (endpoint name ≡ none)
      ⊎ ((endpoint name ≡ some (str "PUT", set_mode))
          ⊎ ((endpoint name ≡ some (str "PUT", set_exclusions))
              ⊎ ((endpoint name ≡ some (str "PUT", set_ip_rules))
                  ⊎ ((endpoint name ≡ some (str "GET", show_backups))
                      ⊎ (endpoint name ≡ some (str "POST", roll_back))))))
unfolding endpoint
endpoint_cases name = ground arith

-- A route that serves a reading request, or none.
pub data IsReadRoute : ApiRoute → Type 0 where
  reads_backups : (d : Bytes) → IsReadRoute (found show_backups d)
  answers_405 : (wanted : Bytes) → IsReadRoute (other_method wanted)
  answers_404 : IsReadRoute no_route

-- A pattern that changes something is of PUT or POST, which no safe method is.
IsReadRoute-refused :
    (e : Endpoint) (m d wanted : Bytes)
    → (serves wanted m ≡ false)
    → IsReadRoute (at_endpoint m d (some (wanted, e)))
IsReadRoute-refused e m d wanted h = rw h (answers_405 wanted)

not_served :
    (m : Bytes) → IsSafe m → (serves (str "PUT") m ≡ false) × (serves (str "POST") m ≡ false)
unfolding beq
not_served m safe = elim safe [
  | inl e ↦ rw e (refl, refl)
  | inr (inl e) ↦ rw e (refl, refl)
  | inr (inr e) ↦ rw e (refl, refl)
]

IsReadRoute-backups : (m d : Bytes) → IsReadRoute (at_endpoint m d (some (str "GET", show_backups)))
IsReadRoute-backups m d = elim (Bool-cases (serves (str "GET") m)) [
  | inl e ↦ rw e (reads_backups d)
  | inr e ↦ rw e (answers_405 (str "GET"))
]

IsReadRoute-at_endpoint :
    (m d name : Bytes) → IsSafe m → IsReadRoute (at_endpoint m d (endpoint name))
IsReadRoute-at_endpoint m d name safe =
    let (put, post) = not_served m safe in
    elim (endpoint_cases name) [
      | inl e ↦ rw e answers_404
      | inr (inl e) ↦ rw e (IsReadRoute-refused set_mode m d (str "PUT") put)
      | inr (inr (inl e)) ↦ rw e (IsReadRoute-refused set_exclusions m d (str "PUT") put)
      | inr (inr (inr (inl e))) ↦ rw e (IsReadRoute-refused set_ip_rules m d (str "PUT") put)
      | inr (inr (inr (inr (inl e)))) ↦ rw e (IsReadRoute-backups m d)
      | inr (inr (inr (inr (inr e)))) ↦ rw e (IsReadRoute-refused roll_back m d (str "POST") post)
    ]

IsReadRoute-if :
    (b : Bool) (route : ApiRoute) → IsReadRoute route → IsReadRoute (if b then no_route else route)
IsReadRoute-if true route h = answers_404
IsReadRoute-if false route h = h

IsReadRoute-at_segments :
    (m : Bytes) (segments : List Bytes) → IsSafe m → IsReadRoute (at_segments m segments)
IsReadRoute-at_segments m ([] ∷ (api ∷ (sites ∷ (d ∷ (name ∷ []))))) safe =
    IsReadRoute-if (not (beq api (str "api")) || (not (beq sites (str "sites")) || beq d []))
      (at_endpoint m d (endpoint name)) (IsReadRoute-at_endpoint m d name safe)
IsReadRoute-at_segments m [] safe = answers_404
IsReadRoute-at_segments m ((c ∷ s) ∷ _) safe = answers_404
IsReadRoute-at_segments m ([] ∷ []) safe = answers_404
IsReadRoute-at_segments m ([] ∷ (_ ∷ [])) safe = answers_404
IsReadRoute-at_segments m ([] ∷ (_ ∷ (_ ∷ []))) safe = answers_404
IsReadRoute-at_segments m ([] ∷ (_ ∷ (_ ∷ (_ ∷ [])))) safe = answers_404
IsReadRoute-at_segments m ([] ∷ (_ ∷ (_ ∷ (_ ∷ (_ ∷ (_ ∷ _)))))) safe = answers_404

pub IsReadRoute-api_route : (m path : Bytes) → IsSafe m → IsReadRoute (api_route m path)
unfolding api_route
IsReadRoute-api_route m path safe = IsReadRoute-at_segments m (split path b'/') safe

IsView-handle_list_backups :
    (reloader : Reloader) (codec : Codec) (net : Net) (ctx : Context) (d : Bytes) (r : Request)
    → IsView (handle_list_backups reloader codec net ctx d r)
unfolding handle_list_backups attempt
IsView-handle_list_backups reloader codec net ctx d r = record {
  from = λ w. Viewed-attempt _ w (Quiet-list_backups ctx d);
}

pub IsView-serve :
    (reloader : Reloader) (codec : Codec) (net : Net) (ctx : Context) (route : ApiRoute)
    (r : Request)
    → IsReadRoute route
    → IsView (serve reloader codec net ctx route r)
unfolding serve
IsView-serve reloader codec net ctx _ r (reads_backups d) =
    IsView-handle_list_backups reloader codec net ctx d r
IsView-serve reloader codec net ctx _ r (answers_405 wanted) =
    IsView-here (not_allowed (allowed wanted))
IsView-serve reloader codec net ctx _ r answers_404 =
    IsView-here (http_error 404 (str "404 page not found"))

-- A route of the pages that serves a reading request.
pub data IsReadPage : PageRoute → Type 0 where
  reads_index : IsReadPage index
  answers_405 : (methods : Bytes) → IsReadPage (bad_method methods)

IsReadPage-other_methods : (form : Option PageRoute) → IsReadPage (other_methods form)
IsReadPage-other_methods none = answers_405 (str "GET, HEAD")
IsReadPage-other_methods (some form) = answers_405 (str "GET, HEAD, POST")

pub IsReadPage-page_route : (m path : Bytes) → IsSafe m → IsReadPage (page_route m path)
unfolding page_route beq
IsReadPage-page_route m path safe = elim safe [
  | inl e ↦ rw e reads_index
  | inr (inl e) ↦ rw e reads_index
  | inr (inr e) ↦ rw e (IsReadPage-other_methods (posted (split path b'/')))
]

pub IsView-serve_page :
    (sources : Sources) (templates : Templates) (reloader : Reloader) (net : Net) (ctx : Context)
    (route : PageRoute) (r : Request)
    → IsReadPage route
    → IsView (serve_page sources templates reloader net ctx route r)
unfolding serve_page
IsView-serve_page sources templates reloader net ctx _ r reads_index =
    IsView-handle_index sources templates ctx r
IsView-serve_page sources templates reloader net ctx _ r (answers_405 methods) =
    IsView-here (not_allowed methods)
