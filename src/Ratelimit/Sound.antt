-- ===== src/Ratelimit/Sound.antt =====
-- The invariant of `ClientLimiter` of internal/ratelimit/ratelimit.go.
use caddy_waf_ui.Prelude.{
  ℕ, ◌*◌, ◌≤◌, ◌≡◌, refl, sym, ◌∙◌, Option, none, some, arith, Bool-cases, inl, inr,
}
use caddy_waf_ui.Text.{Bytes, beq}
use caddy_waf_ui.Ratelimit.Bucket.{Bucket, one, refill, take_token, allow_at}
use caddy_waf_ui.Ratelimit.Rate.{allow_at-capacity, allow_at-Charged}
use caddy_waf_ui.Ratelimit.Clients.{
  ClientEntry, ClientLimiter, prune, set_client, bucket_from, bucket_of, allow,
}
use caddy_waf_ui.Ratelimit.Prune.{prune-Kept}

-- A bucket with the limiter's rate and size that holds no more than its size.
pub record IsBounded (per_minute burst : ℕ) (b : Bucket) : Type 0 where
  pub rate : b.per_minute ≡ per_minute
  pub size : b.capacity ≡ burst * one
  pub full : b.tokens ≤ b.capacity

-- The bucket of every client is one of the limiter's.
abbrev pub AllBounded : ClientLimiter → Type 0
AllBounded limiter =
    (key : Bytes) (entry : ClientEntry)
    → limiter.clients key ≡ some entry
    → IsBounded limiter.per_minute limiter.burst entry.bucket

bucket_from-IsBounded :
    (per_minute burst now : ℕ) (known : Option ClientEntry)
    → ((entry : ClientEntry) → known ≡ some entry → IsBounded per_minute burst entry.bucket)
    → IsBounded per_minute burst (bucket_from per_minute burst now known)
bucket_from-IsBounded per_minute burst now none bounded = record {
  rate = refl;
  size = refl;
  full = omega arith;
}
bucket_from-IsBounded per_minute burst now (some entry) bounded = bounded entry refl

capacity-allow_at : (b : Bucket) (now : ℕ) → (allow_at b now).1.capacity ≡ b.capacity
unfolding allow_at take_token refill
capacity-allow_at b now = ground arith

allow_at-IsBounded :
    (per_minute burst now : ℕ) (b : Bucket)
    → IsBounded per_minute burst b
    → IsBounded per_minute burst (allow_at b now).1
allow_at-IsBounded per_minute burst now b bounded = record {
  rate = (allow_at-Charged b now).rate ∙ bounded.rate;
  size = capacity-allow_at b now ∙ bounded.size;
  full = allow_at-capacity b now bounded.full;
}

set_client-all {κ} :
    (P : ClientEntry → Type κ) (key : Bytes) (new : ClientEntry)
    (clients : Bytes → Option ClientEntry)
    → P new
    → ((k : Bytes) (entry : ClientEntry) → clients k ≡ some entry → P entry)
    → (k : Bytes) (entry : ClientEntry) → set_client key new clients k ≡ some entry
    → P entry
unfolding set_client
set_client-all P key new clients here others k entry h = elim (Bool-cases (beq k key)) [
  | inl same ↦ let e : new ≡ entry = ground (arith, same, h) in rw (sym e) here
  | inr other ↦ others k entry (ground (arith, other, h))
]

-- A call keeps the invariant of the clients: every bucket has the limiter's rate and size, and no
-- bucket holds more tokens than its size.
pub allow-AllBounded :
    (limiter : ClientLimiter) (key : Bytes) (now : ℕ)
    → AllBounded limiter
    → AllBounded (allow limiter key now).1
unfolding allow
allow-AllBounded limiter key now bounded =
    let pruned = prune now limiter in
    let kept = prune-Kept now limiter in
    let known : (k : Bytes) (entry : ClientEntry)
        → pruned.clients k ≡ some entry
        → IsBounded pruned.per_minute pruned.burst entry.bucket =
      λ k entry h. rw (kept.rate, kept.size) (bounded k entry (kept.entries k entry h)) in
    let set = allow_at (bucket_of pruned key now) now in
    set_client-all (λ entry. IsBounded pruned.per_minute pruned.burst entry.bucket) key
      (record { bucket = set.1; last_seen = now }) pruned.clients
      (allow_at-IsBounded pruned.per_minute pruned.burst now (bucket_of pruned key now)
        (bucket_from-IsBounded pruned.per_minute pruned.burst now (pruned.clients key) (known key)))
      known
