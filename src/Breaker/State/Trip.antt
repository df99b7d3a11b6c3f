-- ===== src/Breaker/State/Trip.antt =====
-- breaker/breaker.go: the fixed-point test of the error rate.
use resili.Prelude.{ℕ, ◌*◌, ◌^◌, ◌≤◌, ◌<◌, ◌≡◌, pos, ◌&&◌, leb, arith, mul64_pos, signed}
use resili.Breaker.State.{CircuitBreaker, WindowStats, over_threshold}

mul_mono : (a b c : ℕ) → a ≤ b → a * c ≤ b * c
mul_mono a b c h = grind arith

signed_small : (n : ℕ) → n < 2 ^ 63 → signed n ≡ pos n
signed_small n h = ground arith

-- For a threshold of at most 1024 (a rate of 1) and counters below 2 ^ 53, the products do not wrap:
-- the circuit is to open exactly when there are enough requests and failures * 1024 is at least the
-- threshold times the requests.
pub over_threshold_exact :
    (cb : CircuitBreaker) (stats : WindowStats) (t : ℕ)
    → cb.error_threshold ≡ pos t
    → t ≤ 1024
    → stats.requests < 2 ^ 53
    → stats.failures < 2 ^ 53
    → over_threshold cb stats
      ≡ (leb cb.min_requests stats.requests && leb (t * stats.requests) (stats.failures * 1024))
unfolding over_threshold
over_threshold_exact cb stats t e h r f =
    rw
      (
        e,
        signed_small stats.requests (omega arith),
        signed_small stats.failures (omega arith),
        mul64_pos t stats.requests (omega (arith, mul_mono t 1024 stats.requests h)),
        mul64_pos stats.failures 1024 (omega arith),
      )
      (ground arith)
