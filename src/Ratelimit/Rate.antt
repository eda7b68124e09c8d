-- ===== src/Ratelimit/Rate.antt =====
-- The rate that `allowAt` of internal/ratelimit/ratelimit.go keeps, and the wait that it announces.
use native.Mathlib.Nat.{div-add-mod', mod-lt, mul-le-mul_right}
use caddy_waf_ui.Prelude.{
  ℕ, ◌+◌, ◌-◌, ◌*◌, ◌/◌, ◌≤◌, ◌≡◌, inl, inr, refl, ap, ◌∙◌, sym, false, leb, ltb, ◌==◌, List, [],
  ◌∷◌, arith, Bool-cases, All,
}
use caddy_waf_ui.Ratelimit.Bucket.{
  Bucket, Verdict, granted, retry, one, nanos, refill, retry_after, take_token, allow_at,
}

-- The number of requests granted at the instants, and the bucket after them.
pub grant_one : Verdict → ℕ
grant_one granted = 1
grant_one (retry n) = 0

unfoldable pub grants : Bucket → List ℕ → ℕ × Bucket
grants b [] = (0, b)
grants b (t ∷ ts) =
    let first = allow_at b t in let rest = grants first.1 ts in (grant_one first.0 + rest.0, rest.1)

-- The account of a bucket: `n` tokens given, and what is left of them and of the refill.
pub record Charged (n : ℕ) (b after : Bucket) : Type 0 where
  paid : n * one + after.tokens ≤ b.tokens + (after.last - b.last) * b.per_minute
  later : b.last ≤ after.last
  pub rate : after.per_minute ≡ b.per_minute

refill-Charged : (b : Bucket) (now : ℕ) → Charged 0 b (refill now b)
unfolding refill grant_one
refill-Charged b now = elim (Bool-cases (ltb b.last now)) [
  | inl e ↦ rw (e, refill) record { paid = ground arith; later = ground (arith, e); rate = refl }
  | inr e ↦ rw (e, refill) record { paid = omega arith; later = omega arith; rate = refl }
]

take_token-Charged : (b : Bucket) → Charged (grant_one (take_token b).0) b (take_token b).1
unfolding take_token grant_one
take_token-Charged b = elim (Bool-cases (leb one b.tokens)) [
  | inl e ↦ rw (e, take_token) record { paid = ground (arith, e); later = omega arith; rate = refl }
  | inr e ↦ rw (e, take_token) record { paid = omega arith; later = omega arith; rate = refl }
]

-- Two accounts one after the other, for the number of tokens that are paid.
add_paid :
    (p n m t0 t1 t2 l0 l1 l2 : ℕ)
    → l0 ≤ l1
    → l1 ≤ l2
    → n * one + t1 ≤ t0 + (l1 - l0) * p
    → m * one + t2 ≤ t1 + (l2 - l1) * p
    → (n + m) * one + t2 ≤ t0 + (l2 - l0) * p
add_paid p n m t0 t1 t2 l0 l1 l2 h1 h2 h3 h4 =
    let parts : (l2 - l0) * p ≡ (l1 - l0) * p + (l2 - l1) * p =
      ap (λ d. d * p) {x = l2 - l0} {y = (l1 - l0) + (l2 - l1)} (omega (arith, h1, h2))
      ∙ omega arith in
    omega (arith, h3, h4, parts)

Charged-trans :
    (n m k : ℕ) (a b c : Bucket) → k ≡ n + m → Charged n a b → Charged m b c → Charged k a c
Charged-trans n m k a b c e first second = record {
  paid = rw e (
      add_paid a.per_minute n m a.tokens b.tokens c.tokens a.last b.last c.last first.later
        second.later first.paid (rw (sym first.rate) second.paid));
  later = omega (arith, first.later, second.later);
  rate = second.rate ∙ first.rate;
}

pub allow_at-Charged :
    (b : Bucket) (now : ℕ) → Charged (grant_one (allow_at b now).0) b (allow_at b now).1
unfolding allow_at
allow_at-Charged b now =
    let filled = refill now b in
    let paid = grant_one (take_token filled).0 in
    Charged-trans 0 paid paid b filled (take_token filled).1 (omega arith) (refill-Charged b now)
      (take_token-Charged filled)

grants-Charged : (b : Bucket) (ts : List ℕ) → Charged (grants b ts).0 b (grants b ts).1
unfolding grants
grants-Charged b [] = record { paid = omega arith; later = omega arith; rate = refl }
grants-Charged b (t ∷ ts) =
    let first = allow_at b t in
    let rest = grants first.1 ts in
    Charged-trans (grant_one first.0) rest.0 (grant_one first.0 + rest.0) b first.1 rest.1 refl
      (allow_at-Charged b t) (grants-Charged first.1 ts)

last-refill : (b : Bucket) (t stop : ℕ) → b.last ≤ stop → t ≤ stop → (refill t b).last ≤ stop
unfolding refill
last-refill b t stop h k = elim (Bool-cases (ltb b.last t)) [
  | inl e ↦ rw (e, refill) k
  | inr e ↦ rw (e, refill) h
]

pub last-allow_at :
    (b : Bucket) (t stop : ℕ) → b.last ≤ stop → t ≤ stop → (allow_at b t).1.last ≤ stop
unfolding allow_at take_token
last-allow_at b t stop h k = elim (Bool-cases (leb one (refill t b).tokens)) [
  | inl e ↦ rw (e, allow_at, take_token) (last-refill b t stop h k)
  | inr e ↦ rw (e, allow_at, take_token) (last-refill b t stop h k)
]

last-grants :
    (b : Bucket) (ts : List ℕ) (stop : ℕ)
    → b.last ≤ stop
    → All (λ t. t ≤ stop) ts
    → (grants b ts).1.last ≤ stop
unfolding grants
last-grants b [] stop h all = h
last-grants b (t ∷ ts) stop h all =
    last-grants (allow_at b t).1 ts stop (last-allow_at b t stop h all.0) all.1

-- However the requests come, up to the instant `stop` a bucket that is not over-full, and was last
-- refilled before, grants no more than its burst and the tokens that its rate gives since then.
pub grants-le :
    (b : Bucket) (ts : List ℕ) (stop : ℕ)
    → b.tokens ≤ b.capacity
    → b.last ≤ stop
    → All (λ t. t ≤ stop) ts
    → (grants b ts).0 * one ≤ b.capacity + (stop - b.last) * b.per_minute
grants-le b ts stop full start before =
    let account = grants-Charged b ts in
    let stopped = last-grants b ts stop start before in
    let longest : ((grants b ts).1.last - b.last) * b.per_minute ≤ (stop - b.last) * b.per_minute =
      mul-le-mul_right b.per_minute (omega (arith, stopped)) in
    omega (arith, account.paid, full, longest)

-- No call lets a bucket hold more than its capacity.
pub allow_at-capacity :
    (b : Bucket) (now : ℕ)
    → b.tokens ≤ b.capacity
    → (allow_at b now).1.tokens ≤ (allow_at b now).1.capacity
unfolding allow_at take_token refill
allow_at-capacity b now full = ground arith

-- In the seconds announced, and a nanosecond, the missing part of a token comes in.
retry_after-refill :
    (b : Bucket) → 1 ≤ b.per_minute → one ≤ b.tokens + (retry_after b * nanos + 1) * b.per_minute
unfolding retry_after
retry_after-refill b rate =
    let second = b.per_minute * nanos in
    let rounded = one - b.tokens - b.per_minute + (second - 1) in
    let seconds = rounded / second in
    let whole : one ≤ b.tokens + (seconds * nanos + 1) * b.per_minute = omega (
      arith,
      rate,
      div-add-mod' rounded second,
      mod-lt rounded {m = second} (omega (arith, rate)),
    ) in
    let positive : (b.per_minute == 0) ≡ false = ground (arith, rate) in
    elim (Bool-cases (ltb seconds 1)) [
      | inl e ↦
          let more : (seconds * nanos + 1) * b.per_minute ≤ (1 * nanos + 1) * b.per_minute =
            mul-le-mul_right b.per_minute (ground (arith, e)) in
          rw (positive, e, retry_after) (omega (arith, whole, more))
      | inr e ↦ rw (positive, e, retry_after) whole
    ]

take_token-granted : (b : Bucket) → one ≤ b.tokens → (take_token b).0 ≡ granted
unfolding take_token
take_token-granted b h = ground (arith, h)

waited-refill :
    (b : Bucket) (wait : ℕ)
    → one ≤ b.capacity
    → one ≤ b.tokens + wait * b.per_minute
    → one ≤ (refill (b.last + wait) b).tokens
unfolding refill
waited-refill b wait room enough =
    let filled : one ≤ b.tokens + (b.last + wait - b.last) * b.per_minute = omega (
      arith,
      enough,
      ap (λ d. d * b.per_minute) {x = b.last + wait - b.last} {y = wait} (omega arith),
    ) in
    elim (Bool-cases (ltb b.last (b.last + wait))) [
      | inl e ↦ rw (e, refill) (ground (arith, filled, room))
      | inr e ↦ rw (e, refill) (ground (arith, filled, e))
    ]

take_token-denied :
    (b : Bucket) (seconds : ℕ)
    → (take_token b).0 ≡ retry seconds
    → (seconds ≡ retry_after b) × ((take_token b).1 ≡ b)
unfolding take_token
take_token-denied b seconds h = elim (Bool-cases (leb one b.tokens)) [
  | inl e ↦ absurd (ground (arith, e, h))
  | inr e ↦ (ground (arith, e, h), rw (e, take_token) refl)
]

capacity-refill : (b : Bucket) (now : ℕ) → (refill now b).capacity ≡ b.capacity
unfolding refill
capacity-refill b now = ground arith

-- A bucket that has a rate and room for a token grants one to a denied client that waits the
-- announced seconds, and a nanosecond for the tolerance.
pub retry_after-granted :
    (b : Bucket) (now seconds : ℕ)
    → 1 ≤ b.per_minute
    → one ≤ b.capacity
    → (allow_at b now).0 ≡ retry seconds
    → (allow_at (allow_at b now).1 ((allow_at b now).1.last + (seconds * nanos + 1))).0 ≡ granted
unfolding allow_at
retry_after-granted b now seconds rate room denied =
    let filled = refill now b in
    let reason = take_token-denied filled seconds denied in
    let next = filled.last + (retry_after filled * nanos + 1) in
    let enough : (take_token (refill next filled)).0 ≡ granted =
      take_token-granted (refill next filled) (
        waited-refill filled (retry_after filled * nanos + 1) (rw (capacity-refill b now) room)
          (retry_after-refill filled (rw ((refill-Charged b now).rate) rate))) in
    rw (reason.1, reason.0, allow_at) enough
