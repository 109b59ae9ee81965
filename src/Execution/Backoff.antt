-- ===== src/Execution/Backoff.antt =====
-- The delay before an explicit failure is tried again.
use native.Mathlib.Nat.{mul-le-mul_left, mul_comm}
use revenue_guard.Prelude.{ℕ, zero, suc, ◌+◌, ◌-◌, ◌*◌, ◌^◌, ◌≤◌, ◌<◌, ◌≡◌, ap, ◌∙◌, arith, min}
use revenue_guard.Clock.{seconds}
use revenue_guard.Fault.{ok}
use revenue_guard.Execution.Attempted.{
  ServiceSettings, init_settings, retry_delay, longest_timedelta,
}

two_pow_pos : (n : ℕ) → 0 < 2 ^ n
two_pow_pos zero = omega arith
two_pow_pos (suc n) = omega (arith, two_pow_pos n)

two_pow_next : (n : ℕ) → 2 ^ (n + 1) ≡ 2 * 2 ^ n
two_pow_next n = let e : n + 1 ≡ suc n = omega arith in ap (λ k. 2 ^ k) e ∙ omega arith

next_sum : (n k : ℕ) → n + suc k ≡ n + k + 1
next_sum n k = omega arith

two_pow_grows : (n k : ℕ) → 2 ^ n ≤ 2 ^ (n + k)
two_pow_grows n zero = let e : n + 0 ≡ n = omega arith in omega (arith, ap (λ x. 2 ^ x) e)
two_pow_grows n (suc k) =
    omega (arith, two_pow_grows n k, two_pow_next (n + k), ap (λ x. 2 ^ x) (next_sum n k))

twice : (base n : ℕ) → base * 2 ^ (n + 1) ≡ 2 * (base * 2 ^ n)
twice base n = rw (two_pow_next n) (grind arith)

doubled : (a b limit : ℕ) → b ≡ 2 * a → min b limit ≡ min (2 * min a limit) limit
doubled a b limit e = omega (arith, e)

positive_base :
    (settings : ServiceSettings) → init_settings settings ≡ ok settings → 0 < settings.retry_base
unfolding init_settings
positive_base settings h = ground (arith, h)

product_short : (base p : ℕ) → base ≤ seconds 300 → p ≤ 274877906944 → base * p ≤ longest_timedelta
product_short base p short top =
    let a : p * base ≤ p * 300000000 = mul-le-mul_left p short in
    let b : base * p ≡ p * base = mul_comm base p in omega (arith, a, b, top)

product_fits : (base n : ℕ) → base ≤ seconds 300 → n ≤ 38 → base * 2 ^ n ≤ longest_timedelta
product_fits base n short few =
    let e : n + (38 - n) ≡ 38 = omega (arith, few) in
    let top : 2 ^ n ≤ 274877906944 = omega (arith, two_pow_grows n (38 - n), ap (λ x. 2 ^ x) e) in
    product_short base (2 ^ n) short top

delay_is :
    (base n : ℕ)
    → base ≤ seconds 300
    → n ≤ 38
    → retry_delay base (n + 1) ≡ ok (min (base * 2 ^ n) (seconds 300))
unfolding retry_delay
delay_is base n short few =
    let e : n + 1 - 1 ≡ n = omega arith in rw e (ground (arith, product_fits base n short few))

two_more : (n : ℕ) → n + 2 ≡ n + 1 + 1
two_more n = omega arith

positive : (base p : ℕ) → 0 < base → 0 < p → 0 < min (base * p) (seconds 300)
positive base p h k = let a : 0 < base * p = grind (arith, h, k) in omega (arith, a)

-- With settings that the service accepts, whose base is at most five minutes, the delay before the next
-- attempt is found for each of the first 38 attempts and the one after: it is positive and at most five
-- minutes, and after the next attempt it is twice as long, or five minutes where that is less. The
-- duration before it is cut off does not overflow.
pub retry_delay_bounds :
    (settings : ServiceSettings) (n : ℕ)
    → init_settings settings ≡ ok settings
    → settings.retry_base ≤ seconds 300
    → n < 38
    → (delay next : ℕ) × (retry_delay settings.retry_base (n + 1) ≡ ok delay)
      × (retry_delay settings.retry_base (n + 2) ≡ ok next)
      × (0 < delay)
      × (delay ≤ seconds 300)
      × (next ≡ min (2 * delay) (seconds 300))
retry_delay_bounds settings n accepted short few = (
  min (settings.retry_base * 2 ^ n) (seconds 300),
  min (settings.retry_base * 2 ^ (n + 1)) (seconds 300),
  delay_is settings.retry_base n short (omega (arith, few)),
  ap (λ k. retry_delay settings.retry_base k) (two_more n)
      ∙ delay_is settings.retry_base (n + 1) short (omega (arith, few)),
  positive settings.retry_base (2 ^ n) (positive_base settings accepted) (two_pow_pos n),
  omega arith,
  doubled (settings.retry_base * 2 ^ n) (settings.retry_base * 2 ^ (n + 1)) (seconds 300)
      (twice settings.retry_base n),
)
