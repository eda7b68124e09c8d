-- ===== src/Ui/Pages.antt =====
-- internal/ui/pages.go: what the pages show, and the flash that is shown once.
pub mod Counts
pub mod Data
pub mod Serve
pub mod Viewing
use caddy_waf_ui.Prelude.{
  ◌==◌, true, ℕ, ◌+◌, ◌-◌, ◌*◌, ◌^◌, Bool, not, ◌&&◌, ◌||◌, Option, none, some, List, [], ◌∷◌, ◌++◌,
  ltb, leb, if◌then◌else◌, sort_by, ℤ, pos, negsuc, zero, suc,
}
use caddy_waf_ui.Text.{Bytes, str, beq, is_digit}
use caddy_waf_ui.Errors.{Result, ok, err}
use caddy_waf_ui.System.{World, Context, Exec}
use caddy_waf_ui.System.Store.{FilePath}
use caddy_waf_ui.System.Calls.{read_file, text_lt}
use caddy_waf_ui.Config.{Env, managed_dir}
use caddy_waf_ui.Domain.Model.{Site}
use caddy_waf_ui.Domain.Header.{Clock}
use caddy_waf_ui.Domain.Scanner.{scan_sites}
use caddy_waf_ui.Waf.Exclusions.{decimal_text}
use caddy_waf_ui.Web.Http.{Request}
use caddy_waf_ui.Web.Auth.{Cookie, Mac, csrf_value}
use caddy_waf_ui.Web.Url.{Values, encode}
use caddy_waf_ui.Ui.Forms.{present}

pub record CrsRule : Type 0 where
  pub rule_id : Bytes
  pub category : Bytes
  pub name : Bytes
  pub description : Bytes

abbrev crs_rule : Bytes → Bytes → Bytes → Bytes → CrsRule
crs_rule rule_id category name description = record {
  rule_id = rule_id;
  category = category;
  name = name;
  description = description;
}

abbrev pub crs_catalog : List CrsRule
crs_catalog =
    crs_rule (str "942100") (str "SQLi") (str "SQL Injection Detected via libinjection")
      (str "Detects classic SQL injection payloads in request values.")
    ∷ (crs_rule (str "941100") (str "XSS") (str "XSS Attack Detected via libinjection")
          (str "Detects cross-site scripting payloads in request values.")
        ∷ (crs_rule (str "930120") (str "LFI") (str "OS File Access Attempt")
              (str "Detects path traversal attempts that read local files.")
            ∷ (crs_rule (str "920420") (str "Protocol")
                  (str "Request Content Type Is Not Allowed by Policy")
                  (str "Rejects request content types outside the configured policy.")
                ∷ (crs_rule (str "932100") (str "RCE")
                      (str "Remote Command Execution: Windows Command Injection")
                      (str "Detects Windows command injection attempts.")
                    ∷ (crs_rule (str "942200") (str "SQLi")
                          (str "SQL Injection: MySQL Comment/Space Obfuscation")
                          (str "Detects MySQL comment/space obfuscated injection attempts.")
                        ∷ [])))))

unfoldable pub flash_message : Bytes → Bytes
unfolding beq
flash_message key =
    if beq key (str "success")
    then str "Configuration updated successfully."
    else if beq key (str "error")
    then str "The configuration could not be applied. Check the service logs for details."
    else if beq key (str "invalid_login")
    then str "Invalid access token."
    else if beq key (str "logged_out")
    then str "You have been signed out."
    else key

unfoldable pub flash_type : Bytes → Bytes
unfolding beq
flash_type key = if beq key (str "error") then str "error" else str "success"

abbrev pub flash_cookie_name : Bytes
flash_cookie_name = str "ui_flash"

abbrev pub flash_cookie : Bytes → Cookie
flash_cookie key = record {
  name = flash_cookie_name;
  value = key;
  expires = [];
  max_age = some 60;
  http_only = true;
  secure = true;
  same_site = str "Lax";
}

-- The cookie with which the flash is taken away.
abbrev pub taken_cookie : Cookie
taken_cookie = record (flash_cookie []) { max_age = none }

abbrev context_keys : List Bytes
context_keys =
    str "tab" ∷ (str "domain" ∷ (str "search" ∷ (str "actionFilter" ∷ (str "page" ∷ []))))

abbrev with_query : Values → Bytes
with_query [] = str "/"
with_query (v ∷ vs) = str "/?" ++ encode (v ∷ vs)

unfoldable pub clean_url : (Bytes → Bytes) → Bytes
unfolding present
clean_url query = with_query (present query context_keys)

-- A step whose error is dropped.
abbrev maybe : {A : Type 0} → Result A → Option A
maybe (ok a) = some a
maybe (err e) = none

unfoldable pub attempt : {A : Type 0} → Exec A → World → Option A × World
attempt m w = let (r, v) = m w in (maybe r, v)

abbrev pub or_default : {A : Type 0} → A → Option A → A
or_default fallback none = fallback
or_default fallback (some a) = a

-- `scanSites`: sorted by domain, none if the scan fails. Sites of one domain keep their order here.
unfoldable pub sorted_sites : Clock → Context → World → List Site × World
unfolding attempt
sorted_sites clock ctx w =
    let (sites, v) = attempt (scan_sites clock (managed_dir ctx.env)) w in
    (sort_by (λ a b. text_lt a.domain b.domain) (or_default [] sites), v)

unfoldable pub named_site : List Site → Bytes → Option Site
named_site [] domain_name = none
named_site (site ∷ sites) domain_name =
    let rest = named_site sites domain_name in
    if beq site.domain domain_name then some site else rest

abbrev pub first_site : List Site → Option Site
first_site [] = none
first_site (site ∷ sites) = some site

abbrev pub or_first : List Site → Option Site → Option Site
or_first sites none = first_site sites
or_first sites (some site) = some site

-- The site that is asked for, else the first one.
unfoldable pub find_site : List Site → Bytes → Option Site
unfolding named_site
find_site sites domain_name = or_first sites (named_site sites domain_name)

unfoldable pub read_overlay : FilePath → World → Bytes × World
unfolding attempt
read_overlay path w = let (content, v) = attempt (read_file path) w in (or_default [] content, v)

unfoldable pub csrf_or_empty : Mac → Env → Bytes
unfolding csrf_value
csrf_or_empty mac env = or_default [] (csrf_value mac env)

unfoldable pub log_page_url : (Bytes → Bytes) → ℕ → Bytes
unfolding present decimal_text
log_page_url query page =
    if ltb page 1
    then []
    else str "/?"
      ++ encode (
          (str "tab", str "logs")
          ∷ (present query (str "search" ∷ (str "actionFilter" ∷ []))
              ++ ((str "page", decimal_text page) ∷ [])))

-- strconv.ParseUint up to its first error: `none` for a syntax error, the limit for a number that
-- does not fit.
unfoldable pub unsigned : ℕ → Bytes → Option ℕ
unfolding is_digit
unsigned n [] = some n
unsigned n (c ∷ cs) =
    let next = n * 10 + (c - b'0') in
    let rest = unsigned next cs in
    if not (is_digit c) then none else if leb (2 ^ 64) next then some (2 ^ 64 - 1) else rest

abbrev magnitude : Bytes → Option ℕ
magnitude [] = none
magnitude (c ∷ cs) = unsigned 0 (c ∷ cs)

abbrev up_to : ℕ → Option ℕ → ℤ
up_to limit none = pos 0
up_to limit (some n) = if ltb n limit then pos n else pos (limit - 1)

abbrev negated : ℕ → ℤ
negated zero = pos 0
negated (suc n) = negsuc n

abbrev down_to : ℕ → Option ℕ → ℤ
down_to limit none = pos 0
down_to limit (some n) = if ltb limit n then negated limit else negated n

-- The number of strconv.Atoi where its error is dropped: a number out of range is cut to the range.
unfoldable pub page_number : Bytes → ℤ
unfolding unsigned
page_number [] = pos 0
page_number (c ∷ cs) =
    if c == b'-'
    then down_to (2 ^ 63) (magnitude cs)
    else if c == b'+'
    then up_to (2 ^ 63) (magnitude cs)
    else up_to (2 ^ 63) (magnitude (c ∷ cs))
