-- ===== src/Ratelimit/Clients.antt =====
-- `ClientLimiter` of internal/ratelimit/ratelimit.go: a bucket for each client, pruned now and then.
-- The readings of the clock within one call are one instant. The zero time is instant 0.
use caddy_waf_ui.Prelude.{ℕ, ◌-◌, Option, none, some, Bool, ltb, if◌then◌else◌}
use caddy_waf_ui.Text.{Bytes, beq}
use caddy_waf_ui.Ratelimit.Bucket.{Bucket, Verdict, new_bucket, allow_at}

-- `ClientIdleTimeout`, 30 minutes.
abbrev pub client_idle_timeout : ℕ
client_idle_timeout = 1800000000000

pub record ClientEntry : Type 0 where
  pub bucket : Bucket
  pub last_seen : ℕ

pub record ClientLimiter : Type 0 where
  pub per_minute : ℕ
  pub burst : ℕ
  pub clients : Bytes → Option ClientEntry
  pub last_prune : ℕ

unfoldable pub new_client : ℕ → ℕ → ClientLimiter
new_client per_minute burst = record {
  per_minute = per_minute;
  burst = burst;
  clients = λ k. none;
  last_prune = 0;
}

-- `now.Sub(lastSeen) > ClientIdleTimeout`.
abbrev pub is_idle : ℕ → ℕ → Bool
is_idle now seen = ltb client_idle_timeout (now - seen)

unfoldable pub keep_active : ℕ → Option ClientEntry → Option ClientEntry
keep_active now none = none
keep_active now (some entry) = if is_idle now entry.last_seen then none else some entry

-- The sweep over the map, at most once in the idle time.
unfoldable pub prune : ℕ → ClientLimiter → ClientLimiter
unfolding keep_active
prune now limiter =
    if is_idle now limiter.last_prune
    then record limiter { clients = λ k. keep_active now (limiter.clients k); last_prune = now }
    else limiter

-- `c.clients[key] = entry`.
unfoldable pub set_client :
    Bytes → ClientEntry → (Bytes → Option ClientEntry) → Bytes → Option ClientEntry
set_client key entry clients k = if beq k key then some entry else clients k

-- The bucket of a known client, and a new one for another.
abbrev pub bucket_from : ℕ → ℕ → ℕ → Option ClientEntry → Bucket
bucket_from per_minute burst now (some entry) = entry.bucket
bucket_from per_minute burst now none = new_bucket per_minute burst now

abbrev pub bucket_of : ClientLimiter → Bytes → ℕ → Bucket
bucket_of limiter key now = bucket_from limiter.per_minute limiter.burst now (limiter.clients key)

unfoldable pub allow : ClientLimiter → Bytes → ℕ → Verdict × ClientLimiter
unfolding prune set_client
allow limiter key now =
    let pruned = prune now limiter in
    let answer = allow_at (bucket_of pruned key now) now in
    let entry : ClientEntry = record { bucket = answer.1; last_seen = now } in
    (answer.0, record pruned { clients = set_client key entry pruned.clients })
