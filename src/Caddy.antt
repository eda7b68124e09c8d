-- ===== src/Caddy.antt =====
-- internal/caddy/admin.go: the reload of Caddy and the verification of the configuration it took on.
pub mod Verified
use caddy_waf_ui.Prelude.{
  ℕ, Bool, true, false, not, ◌||◌, ◌&&◌, Option, none, some, List, [], ◌∷◌, ◌++◌, ◌==◌,
  if◌then◌else◌, any, length, suc,
}
use caddy_waf_ui.Text.{Bytes, str, beq, has_prefix, contains, split, trim_space}
use caddy_waf_ui.Errors.{Error, reload_failure, Result, ok, err}
use caddy_waf_ui.System.{World, Exec}
use caddy_waf_ui.System.Store.{FilePath}
use caddy_waf_ui.System.Calls.{read_file}

-- A decoded JSON value, its members with different keys; numbers and the like carry no host.
mutual
  pub data Json : Type 0 where
    plain : Json
    text : Bytes → Json
    array : Jsons → Json
    object : Members → Json

  pub data Jsons : Type 0 where
    no_item : Jsons
    item : Json → Jsons → Jsons

  pub data Members : Type 0 where
    no_member : Members
    member : Bytes → Json → Members → Members

pub record Url : Type 0 where
  pub scheme : Bytes
  pub host : Bytes
  pub has_user : Bool

-- What package net/http gives for a request: an error, or a status with the body.
pub data Reply (A : Type 0) : Type 0 where
  no_reply : Reply A
  replied : ℕ → A → Reply A

-- What the reload meets outside the repository: url.Parse, the regexp of the site blocks with its
-- first groups, POST /load, and GET of the live configuration with its decoded body.
pub record Admin : Type 0 where
  pub parse_url : Bytes → Option Url
  pub site_groups : Bytes → List Bytes
  pub load : Bytes → Bytes → Reply Bytes
  pub live_config : Bytes → Reply (Option Json)

-- `ReadbackState` without its time.
pub record Readback : Type 0 where
  pub verified : Bool
  pub servers : ℕ
  pub missing : List Bytes

abbrev pub broken : Readback
broken = record { verified = false; servers = 0; missing = [] }

unfoldable pub validate_admin_url : Admin → Bytes → Option Error
validate_admin_url admin raw = elim (admin.parse_url raw) [
  | none ↦ some (reload_failure (str "invalid CADDY_ADMIN_URL"))
  | some url ↦
      if not (beq url.scheme (str "http")) && not (beq url.scheme (str "https"))
      then some (reload_failure (str "scheme must be http or https"))
      else if beq url.host []
      then some (reload_failure (str "host must not be empty"))
      else if url.has_user
      then some (reload_failure (str "userinfo is not allowed"))
      else none
]

unfoldable pub looks_like_host : Bytes → Bool
looks_like_host h = contains h (str ".") || (contains h (str ":") || beq h (str "localhost"))

-- The loop over the parts of the groups; `seen` holds the hosts that are kept already.
abbrev pub is_skipped : List Bytes → Bytes → Bool
is_skipped seen h =
    beq h [] || (has_prefix h (str ":") || (any (beq h) seen || not (looks_like_host h)))

unfoldable pub hosts_from : List Bytes → List Bytes → List Bytes
unfolding looks_like_host
hosts_from seen [] = []
hosts_from seen (part ∷ parts) =
    let h = trim_space part in
    let same = hosts_from seen parts in
    let more = h ∷ hosts_from (h ∷ seen) parts in if is_skipped seen h then same else more

abbrev parts_of : List Bytes → List Bytes
parts_of [] = []
parts_of (group ∷ groups) = split group b',' ++ parts_of groups

unfoldable pub expected_hosts : Admin → Bytes → List Bytes
unfolding hosts_from
expected_hosts admin caddyfile = hosts_from [] (parts_of (admin.site_groups caddyfile))

-- The strings of a "host" array.
abbrev strings_of : Jsons → List Bytes
strings_of no_item = []
strings_of (item (text h) rest) = h ∷ strings_of rest
strings_of (item _ rest) = strings_of rest

abbrev host_array : Json → List Bytes
host_array (array items) = strings_of items
host_array _ = []

abbrev own_hosts : Members → List Bytes
own_hosts no_member = []
own_hosts (member key value rest) =
    let later = own_hosts rest in if beq key (str "host") then host_array value else later

unfoldable mutual
  pub collect_hosts : Json → List Bytes
  collect_hosts plain = []
  collect_hosts (text h) = []
  collect_hosts (array items) = collect_items items
  collect_hosts (object members) = own_hosts members ++ collect_members members

  pub collect_items : Jsons → List Bytes
  collect_items no_item = []
  collect_items (item value rest) = collect_hosts value ++ collect_items rest

  pub collect_members : Members → List Bytes
  collect_members no_member = []
  collect_members (member key value rest) = collect_hosts value ++ collect_members rest

abbrev member_count : Members → ℕ
member_count no_member = 0
member_count (member key value rest) = suc (member_count rest)

abbrev server_count : Json → ℕ
server_count (object members) = member_count members
server_count _ = 0

-- `fetchLiveHosts`: the hosts and the number of servers; it validates the address once more.
unfoldable pub fetch_live_hosts : Admin → Bytes → Result (List Bytes × ℕ)
unfolding collect_hosts validate_admin_url
fetch_live_hosts admin url = elim (validate_admin_url admin url) [
  | some e ↦ err e
  | none ↦ elim (admin.live_config url) [
    | no_reply ↦ err (reload_failure (str "GET failed"))
    | replied status body ↦
        if not (status == 200) then err (reload_failure (str "GET status")) else elim body [
          | none ↦ err (reload_failure (str "unparseable /config response"))
          | some config ↦ ok (collect_hosts config, server_count config)
        ]
  ]
]

abbrev pub contains_host : List Bytes → Bytes → Bool
contains_host live h = any (λ l. beq l h) live

unfoldable pub missing_from : List Bytes → List Bytes → List Bytes
missing_from live [] = []
missing_from live (h ∷ hs) =
    let rest = missing_from live hs in if contains_host live h then rest else h ∷ rest

-- The end of `Reload`: the hosts of the file must be among the live ones.
unfoldable pub compare_hosts : List Bytes → Result (List Bytes × ℕ) → Result (Unit {0}) × Readback
unfolding missing_from
compare_hosts expected (err e) = (err e, broken)
compare_hosts expected (ok (live, servers)) = elim (missing_from live expected) [
  | [] ↦ (ok tt, record { verified = true; servers = servers; missing = [] })
  | h ∷ hs ↦ (
    err (reload_failure (str "read-back: hosts not found")),
    record { verified = false; servers = servers; missing = h ∷ hs },
  )
]

-- `Reload` from the POST on.
unfoldable pub after_read : Admin → Bytes → Result Bytes → Result (Unit {0}) × Readback
unfolding expected_hosts fetch_live_hosts compare_hosts
after_read admin url (err e) = (err e, broken)
after_read admin url (ok caddyfile) = elim (admin.load url caddyfile) [
  | no_reply ↦ (err (reload_failure (str "error performing reload")), broken)
  | replied status body ↦
      if not (status == 200)
      then (err (reload_failure body), broken)
      else compare_hosts (expected_hosts admin caddyfile) (fetch_live_hosts admin url)
]

-- `Reload`, with the state that it records for LastReadback; the Caddyfile is read from `path`.
unfoldable pub reload : Admin → Bytes → FilePath → World → (Result (Unit {0}) × Readback) × World
unfolding validate_admin_url after_read read_file
reload admin url path w =
    let opened = read_file path w in
    elim (validate_admin_url admin url) [
      | some e ↦ ((err e, broken), w)
      | none ↦ (after_read admin url opened.0, opened.1)
    ]
