-- ===== src/Ratelimit/Prune.antt =====
-- The prune of `ClientLimiter.Allow` of internal/ratelimit/ratelimit.go, and the entries that it keeps.
use caddy_waf_ui.Prelude.{ℕ, ◌*◌, ◌≤◌, ◌≡◌, refl, Option, none, some, arith, Bool-cases, inl, inr}
use caddy_waf_ui.Text.{Bytes}
use caddy_waf_ui.Ratelimit.Bucket.{Bucket, one}
use caddy_waf_ui.Ratelimit.Clients.{
  ClientEntry, ClientLimiter, client_idle_timeout, is_idle, keep_active, prune,
}

-- An entry of a limiter with this rate and burst.
pub record IsHealthy (per_minute burst : ℕ) (entry : ClientEntry) : Type 0 where
  pub rate : entry.bucket.per_minute ≡ per_minute
  pub size : entry.bucket.capacity ≡ burst * one
  pub full : entry.bucket.tokens ≤ entry.bucket.capacity
  pub seen : entry.bucket.last ≤ entry.last_seen

abbrev pub IsSound : ClientLimiter → Type 0
IsSound limiter =
    (key : Bytes) (entry : ClientEntry)
    → limiter.clients key ≡ some entry
    → IsHealthy limiter.per_minute limiter.burst entry

-- In the idle time a bucket fills up.
abbrev pub FillsUp : ClientLimiter → Type 0
FillsUp limiter = limiter.burst * one ≤ client_idle_timeout * limiter.per_minute

keep_active-some :
    (now : ℕ) (known : Option ClientEntry) (entry : ClientEntry)
    → keep_active now known ≡ some entry
    → known ≡ some entry
unfolding keep_active
keep_active-some now none entry h = h
keep_active-some now (some known) entry h = elim (Bool-cases (is_idle now known.last_seen)) [
  | inl idle ↦ absurd (ground (arith, idle, h))
  | inr active ↦ ground (arith, active, h)
]

-- A prune only forgets: its entries, rate and burst are the limiter's.
pub record Kept (limiter pruned : ClientLimiter) : Type 0 where
  pub entries :
      (key : Bytes) (entry : ClientEntry)
      → pruned.clients key ≡ some entry
      → limiter.clients key ≡ some entry
  pub rate : pruned.per_minute ≡ limiter.per_minute
  pub size : pruned.burst ≡ limiter.burst

pub prune-Kept : (now : ℕ) (limiter : ClientLimiter) → Kept limiter (prune now limiter)
unfolding prune
prune-Kept now limiter = elim (Bool-cases (is_idle now limiter.last_prune)) [
  | inr fresh ↦ rw (fresh, prune) record { entries = λ key entry h. h; rate = refl; size = refl }
  | inl due ↦
      rw (due, prune)
        record {
          entries = λ key entry h. keep_active-some now (limiter.clients key) entry h;
          rate = refl;
          size = refl;
        }
]
