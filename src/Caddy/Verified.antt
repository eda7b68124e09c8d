-- ===== src/Caddy/Verified.antt =====
-- The outcomes of `Reload` of internal/caddy/admin.go, and `Reload` as the interface of the chain.
use caddy_waf_ui.Prelude.{
  ℕ, ◌≡◌, ◌⊎◌, inl, inr, refl, ap, ◌∙◌, true, false, not, none, some, List, [], ◌∷◌, All, arith,
  Bool-cases, Option-cases, ◌==◌, ==_iff,
}
use caddy_waf_ui.Text.{Bytes}
use caddy_waf_ui.Errors.{Error, Result, ok, err}
use caddy_waf_ui.System.{World}
use caddy_waf_ui.System.Store.{FilePath}
use caddy_waf_ui.System.Calls.{read_file}
use caddy_waf_ui.Service.Chain.{Reloader}
use caddy_waf_ui.Caddy.{
  Json, Admin, Reply, no_reply, replied, Readback, validate_admin_url, expected_hosts,
  collect_hosts, fetch_live_hosts, contains_host, missing_from, compare_hosts, after_read, reload,
  broken,
}

-- Caddy took on the file, and its live configuration has all hosts of the file.
pub record IsLive (admin : Admin) (url : Bytes) (caddyfile : Bytes) : Type 0 where
  pub answer : Bytes
  pub loaded : admin.load url caddyfile ≡ replied 200 answer
  pub config : Json
  pub live : admin.live_config url ≡ replied 200 (some config)
  pub hosts :
      All (λ h. contains_host (collect_hosts config) h ≡ true) (expected_hosts admin caddyfile)

missing_from-none :
    (live hosts : List Bytes)
    → missing_from live hosts ≡ []
    → All (λ h. contains_host live h ≡ true) hosts
unfolding missing_from
missing_from-none live [] h = tt
missing_from-none live (x ∷ xs) h = elim (Bool-cases (contains_host live x)) [
  | inl found ↦ (found, missing_from-none live xs (ground (arith, h, found)))
  | inr lost ↦ absurd (ground (arith, h, lost))
]

-- The outcome of a reload with the file that was read: verified, and recorded as such; or an error,
-- and recorded as not verified.
pub data Reloaded (admin : Admin) (url : Bytes) (file : Result Bytes)
    : Result (Unit {0}) × Readback → Type 0 where
  verified :
      (caddyfile : Bytes) (servers : ℕ)
      → file ≡ ok caddyfile
      → IsLive admin url caddyfile
      → Reloaded admin url file (ok tt, record { verified = true; servers = servers; missing = [] })
  failed :
      (e : Error) (state : Readback)
      → state.verified ≡ false
      → Reloaded admin url file (err e, state)

data Compared (expected : List Bytes) (fetched : Result (List Bytes × ℕ))
    : Result (Unit {0}) × Readback → Type 0 where
  all_live :
      (live : List Bytes) (servers : ℕ)
      → fetched ≡ ok (live, servers)
      → All (λ h. contains_host live h ≡ true) expected
      → Compared expected fetched
          (ok tt, record { verified = true; servers = servers; missing = [] })
  not_live :
      (e : Error) (state : Readback)
      → state.verified ≡ false
      → Compared expected fetched (err e, state)

List-cases : (xs : List Bytes) → (xs ≡ []) ⊎ ((h : Bytes) × ((hs : List Bytes) × (xs ≡ h ∷ hs)))
List-cases [] = inl refl
List-cases (h ∷ hs) = inr (h, (hs, refl))

compare_hosts-Compared :
    (expected : List Bytes) (fetched : Result (List Bytes × ℕ))
    → Compared expected fetched (compare_hosts expected fetched)
unfolding compare_hosts
compare_hosts-Compared expected (err e) = not_live e broken refl
compare_hosts-Compared expected (ok (live, servers)) =
    elim (List-cases (missing_from live expected)) [
      | inl none_missing ↦
          rw (none_missing, compare_hosts)
            (all_live live servers refl (missing_from-none live expected none_missing))
      | inr (h, (hs, some_missing)) ↦ rw (some_missing, compare_hosts) (not_live _ _ refl)
    ]

-- A result of `fetchLiveHosts` comes from an answer with the status 200.
data Fetched (admin : Admin) (url : Bytes) : Result (List Bytes × ℕ) → Type 0 where
  fetched :
      (config : Json) (servers : ℕ)
      → admin.live_config url ≡ replied 200 (some config)
      → Fetched admin url (ok (collect_hosts config, servers))
  not_fetched : (e : Error) → Fetched admin url (err e)

Reply-cases :
    {A : Type 0} (r : Reply A)
    → (r ≡ no_reply) ⊎ ((status : ℕ) × ((body : A) × (r ≡ replied status body)))
Reply-cases no_reply = inl refl
Reply-cases (replied status body) = inr (status, (body, refl))

-- A status that passes the test is 200.
status_ok :
    {A : Type 0} (status : ℕ) (body : A)
    → not (status == 200) ≡ false
    → replied status body ≡ replied 200 body
status_ok status body h = ap (λ n. replied n body) ((==_iff status 200).0 (ground (arith, h)))

fetch_live_hosts-Fetched :
    (admin : Admin) (url : Bytes) → Fetched admin url (fetch_live_hosts admin url)
unfolding fetch_live_hosts
fetch_live_hosts-Fetched admin url = elim (Option-cases (validate_admin_url admin url)) [
  | inr (e, bad) ↦ rw (bad, fetch_live_hosts) (not_fetched e)
  | inl good ↦ elim (Reply-cases (admin.live_config url)) [
    | inl lost ↦ rw (good, lost, fetch_live_hosts) (not_fetched _)
    | inr (status, (body, answer)) ↦ elim (Bool-cases (not (status == 200))) [
      | inl bad ↦ rw (good, answer, bad, fetch_live_hosts) (not_fetched _)
      | inr fine ↦ elim (Option-cases body) [
        | inl none_decoded ↦ rw (good, answer, fine, none_decoded, fetch_live_hosts) (not_fetched _)
        | inr (config, decoded) ↦
            let whole : admin.live_config url ≡ replied 200 (some config) =
              answer ∙ status_ok status body fine ∙ ap (λ b. replied 200 b) decoded in
            rw (good, whole, fetch_live_hosts) (fetched config _ whole)
      ]
    ]
  ]
]

-- With an answer 200 to the POST, the comparison decides the outcome.
loaded-Reloaded :
    (admin : Admin) (url caddyfile answer : Bytes) (r : Result (List Bytes × ℕ))
    (p : Result (Unit {0}) × Readback)
    → admin.load url caddyfile ≡ replied 200 answer
    → Fetched admin url r
    → Compared (expected_hosts admin caddyfile) r p
    → Reloaded admin url (ok caddyfile) p
loaded-Reloaded admin url caddyfile answer r p loaded got (not_live e state no_state) =
    failed e state no_state
loaded-Reloaded admin url caddyfile answer (err f) p loaded (not_fetched e)
      (all_live live servers same hosts) =
    absurd (cc)
loaded-Reloaded admin url caddyfile answer (ok c) p loaded (fetched config n whole)
      (all_live live servers same hosts) =
    let lives : collect_hosts config ≡ live = cc in
    verified caddyfile servers refl (record {
      answer = answer;
      loaded = loaded;
      config = config;
      live = whole;
      hosts = rw lives hosts;
    })

after_read-Reloaded :
    (admin : Admin) (url : Bytes) (file : Result Bytes)
    → Reloaded admin url file (after_read admin url file)
unfolding after_read
after_read-Reloaded admin url (err e) = failed e broken refl
after_read-Reloaded admin url (ok caddyfile) = elim (Reply-cases (admin.load url caddyfile)) [
  | inl lost ↦ rw (lost, after_read) (failed _ broken refl)
  | inr (status, (body, answer)) ↦ elim (Bool-cases (not (status == 200))) [
    | inl bad ↦ rw (answer, bad, after_read) (failed _ broken refl)
    | inr fine ↦
        let whole : admin.load url caddyfile ≡ replied 200 body =
          answer ∙ status_ok status body fine in
        let compared =
          loaded-Reloaded admin url caddyfile body (fetch_live_hosts admin url)
            (compare_hosts (expected_hosts admin caddyfile) (fetch_live_hosts admin url)) whole
            (fetch_live_hosts-Fetched admin url)
            (compare_hosts-Compared (expected_hosts admin caddyfile)
              (fetch_live_hosts admin url)) in
        rw (whole, after_read) compared
  ]
]

-- One step of `Reload` on a world: refused at once for its address, or decided by what is read.
pub data Stepped (admin : Admin) (url : Bytes) (path : FilePath) (w : World)
    : (Result (Unit {0}) × Readback) × World → Type 0 where
  bad_address :
      (e : Error)
      → validate_admin_url admin url ≡ some e
      → Stepped admin url path w ((err e, broken), w)
  decided :
      {outcome : Result (Unit {0}) × Readback} {after : World}
      → validate_admin_url admin url ≡ none
      → Reloaded admin url (read_file path w).0 outcome
      → after.disk ≡ w.disk
      → after.trail ≡ w.trail
      → Stepped admin url path w (outcome, after)

read_file-keeps :
    (path : FilePath) (w : World)
    → ((read_file path w).1.disk ≡ w.disk) × ((read_file path w).1.trail ≡ w.trail)
unfolding read_file
read_file-keeps path w = (ground arith, ground arith)

-- `Reload` succeeds only if Caddy accepted the Caddyfile and its live configuration has every host of
-- it, and records exactly then a verified state; a failure records an unverified one. No file is
-- written and no audit event is added.
pub reload-Stepped :
    (admin : Admin) (url : Bytes) (path : FilePath) (w : World)
    → Stepped admin url path w (reload admin url path w)
unfolding reload
reload-Stepped admin url path w = elim (Option-cases (validate_admin_url admin url)) [
  | inr (e, bad) ↦ rw (bad, reload) (bad_address e bad)
  | inl good ↦
      rw (good, reload)
        (decided good (after_read-Reloaded admin url (read_file path w).0)
          (read_file-keeps path w).0 (read_file-keeps path w).1)
]

pub reload-keeps :
    (admin : Admin) (url : Bytes) (path : FilePath) (w : World)
    → ((reload admin url path w).1.disk ≡ w.disk) × ((reload admin url path w).1.trail ≡ w.trail)
reload-keeps admin url path w =
    step_keeps (reload admin url path w) (reload-Stepped admin url path w)
  where
    step_keeps :
        (p : (Result (Unit {0}) × Readback) × World)
        → Stepped admin url path w p
        → (p.1.disk ≡ w.disk) × (p.1.trail ≡ w.trail)
    step_keeps p (bad_address e bad) = (refl, refl)
    step_keeps p (decided good outcome disk trail) = (disk, trail)

-- The reload as the chain calls it.
abbrev pub caddy_reloader : Admin → Bytes → FilePath → Reloader
caddy_reloader admin url path = record {
  run = λ w. ((reload admin url path w).0.0, (reload admin url path w).1);
  keeps_disk = λ w. (reload-keeps admin url path w).0;
  keeps_trail = λ w. (reload-keeps admin url path w).1;
}
