-- ===== src/Retry/Policy/Backoff.antt =====
-- retry/policy.go, ExponentialBackoff: the delays as exact numbers of nanoseconds.
use native.Mathlib.Nat.{pow-suc}
use resili.Prelude.{
  ℕ, zero, suc, ◌+◌, ◌-◌, ◌*◌, ◌^◌, ◌≤◌, ◌≡◌, ap, ◌∙◌, pos, arith, ◌*ℤ◌, ◌<ℤ◌, int64_lem, int64,
  mul64, mul64_pos,
}
use resili.Retry.Policy.{exponential_backoff, second}

power-le : (a d : ℕ) → a + d ≡ 33 → 2 ^ a ≤ 2 ^ 33
power-le a zero e = let same : a ≡ 33 = omega arith in rw same (omega arith)
power-le a (suc d) e = omega (arith, pow-suc 2 a, power-le (suc a) d (omega arith))

exponential_backoff_small :
    (attempt : ℕ)
    → 2 ^ attempt ≤ 2 ^ 33
    → exponential_backoff attempt ≡ pos (2 ^ attempt * 1_000_000_000)
unfolding exponential_backoff
exponential_backoff_small attempt small =
    ap (λ n. mul64 n second) (int64_lem (pos (2 ^ attempt)) (omega arith))
    ∙ mul64_pos (2 ^ attempt) 1_000_000_000 (omega arith)

-- Up to attempt 33 the delay of the exponential strategy is 2 ^ attempt seconds exactly; for attempt
-- 34 the product wraps, and the delay is negative.
pub exponential_backoff_exact :
    (attempt : ℕ)
    → attempt ≤ 33
    → (exponential_backoff attempt ≡ pos (2 ^ attempt * 1_000_000_000))
      × (exponential_backoff 34 <ℤ pos 0)
unfolding exponential_backoff ◌*ℤ◌ int64
exponential_backoff_exact attempt h =
    (exponential_backoff_small attempt (power-le attempt (33 - attempt) (omega arith)), omega arith)
