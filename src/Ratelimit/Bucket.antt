-- ===== src/Ratelimit/Bucket.antt =====
-- `Bucket` of internal/ratelimit/ratelimit.go, in exact arithmetic instead of floating point: a token
-- is 60 * 10 ^ 9 units, so that a bucket of p tokens a minute gains p units a nanosecond. Instants
-- are nanoseconds.
use caddy_waf_ui.Prelude.{ℕ, ◌+◌, ◌-◌, ◌*◌, ◌/◌, leb, ltb, ◌==◌, if◌then◌else◌}

-- One token, in units.
abbrev pub one : ℕ
one = 60000000000

abbrev pub nanos : ℕ
nanos = 1000000000

pub record Bucket : Type 0 where
  pub per_minute : ℕ
  pub capacity : ℕ
  pub tokens : ℕ
  pub last : ℕ

pub data Verdict : Type 0 where
  granted : Verdict
  -- Denied, with the seconds to wait.
  retry : ℕ → Verdict

abbrev pub new_bucket : ℕ → ℕ → ℕ → Bucket
new_bucket per_minute burst now = record {
  per_minute = per_minute;
  capacity = burst * one;
  tokens = burst * one;
  last = now;
}

-- The refill up to the instant, which is none if the clock has not moved on.
unfoldable pub refill : ℕ → Bucket → Bucket
refill now b =
    let filled = b.tokens + (now - b.last) * b.per_minute in
    if ltb b.last now
    then record b { tokens = if ltb b.capacity filled then b.capacity else filled; last = now }
    else b

-- The whole seconds until a token is there, less the tolerance of a nanosecond, and at least one.
unfoldable pub retry_after : Bucket → ℕ
retry_after b =
    let need = one - b.tokens in
    let second = b.per_minute * nanos in
    let seconds = (need - b.per_minute + (second - 1)) / second in
    if b.per_minute == 0 then 3600 else if ltb seconds 1 then 1 else seconds

unfoldable pub take_token : Bucket → Verdict × Bucket
unfolding retry_after
take_token b =
    if leb one b.tokens
    then (granted, record b { tokens = b.tokens - one })
    else (retry (retry_after b), b)

unfoldable pub allow_at : Bucket → ℕ → Verdict × Bucket
unfolding refill take_token
allow_at b now = take_token (refill now b)
