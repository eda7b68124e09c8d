-- ===== src/Tests/Ratelimit.antt =====
-- The limits at concrete inputs.
use caddy_waf_ui.Prelude.{◌+◌, ◌-◌, ◌*◌, ◌≤◌, ◌≡◌, refl, [], ◌∷◌, arith}
use caddy_waf_ui.Text.{str}
use caddy_waf_ui.Ratelimit.Bucket.{
  Bucket, granted, retry, allow_at, refill, take_token, retry_after, one, nanos,
}
use caddy_waf_ui.Ratelimit.Rate.{grants, grants-le, retry_after-granted}
use caddy_waf_ui.Ratelimit.Clients.{new_client, allow}
use caddy_waf_ui.Ratelimit.Sound.{AllBounded, allow-AllBounded}

-- The bucket of a login client, when its tokens are spent.
abbrev spent : Bucket
spent = record { per_minute = 5; capacity = 5 * one; tokens = 0; last = 7 }

spent_denied : (allow_at spent 7).0 ≡ retry 12
unfolding allow_at refill take_token retry_after
spent_denied = refl

grants-le_example :
    (grants spent (8 ∷ (12000000007 ∷ []))).0 * one ≤ 5 * one + (12000000007 - 7) * 5
grants-le_example =
    grants-le spent (8 ∷ (12000000007 ∷ [])) 12000000007 (omega arith) (omega arith)
      (omega arith, (omega arith, tt))

retry_after-granted_example :
    (allow_at (allow_at spent 7).1 ((allow_at spent 7).1.last + (12 * nanos + 1))).0 ≡ granted
retry_after-granted_example =
    retry_after-granted spent 7 12 (omega arith) (omega arith) spent_denied

new_client-AllBounded : AllBounded (new_client 5 5)
unfolding new_client
new_client-AllBounded key entry h = absurd (cc)

allow-AllBounded_example : AllBounded (allow (new_client 5 5) (str "10.0.0.9") 9).1
allow-AllBounded_example =
    allow-AllBounded (new_client 5 5) (str "10.0.0.9") 9 new_client-AllBounded
