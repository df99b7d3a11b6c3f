-- ===== src/Examples/Tests.antt =====
-- examples/: the theorems at concrete inputs.
use resili.Prelude.{
  ℕ, zero, suc, ◌<◌, ◌+◌, ◌≡◌, refl, true, pos, [], none, some, arith, inl, ltb, leb_ℤ, ◌≤ℤ◌, ◌==◌,
  if◌then◌else◌,
}
use resili.Errors.{foreign, rate_limited, retry, join}
use resili.Breaker.State.{default_breaker}
use resili.Limiter.State.{new_limiter}
use resili.Retry.Budget.{Float64}
use resili.Http.Middleware.{Middleware}
use resili.Examples.Http.{World, completed, request_failed, run}
use resili.Examples.Http.Attempts.{names, IsRetried}
use resili.Examples.Http.Fails.{run_fails}
use resili.Examples.Http.Refused.{run_leaks}
use resili.Examples.Http.Succeeds.{run_completes}

-- Ratios as whole numbers of thousandths.
between : (n : ℕ) → (leb_ℤ (pos n) (pos 1000) ≡ true) → (pos 0 ≤ℤ pos n) × (pos n ≤ℤ pos 1000)
between n h = ground arith

abbrev thousandths : Float64
thousandths = record {
  Float = ℕ;
  is_pos = λ n. ltb 0 n;
  at_most_one = λ n. leb_ℤ (pos n) (pos 1000);
  per_mille = λ n. pos n;
  fifth = 200;
  fifth_pos = refl;
  fifth_at_most_one = refl;
  per_mille_range = λ n h k. between n k;
}

-- The server does not answer the first attempt, answers the second with status 503 and then with 200.
abbrev troubled : World
troubled = record {
  limiter = new_limiter [];
  cb = default_breaker;
  budget = record { success = 0; retries = 0; ratio = pos 0 };
  time = 1_000;
  latency = λ k. 1_900_000_000;
  late = λ t. 60_000_000;
  replies = λ k.
      if k == 0
      then (none, some (foreign 1))
      else (some (if k == 1 then pos 503 else pos 200), none);
  served = 0;
  made = 0;
  closed = [];
}

troubled_fails : (j : ℕ) → j < 2 → IsRetried (troubled.replies (0 + j))
troubled_fails zero h = tt
troubled_fails (suc zero) h = refl
troubled_fails (suc (suc j)) h = absurd (omega arith)

abbrev unhedged : Middleware ℕ World
unhedged next = next

run_completes_example :
    let (ending, w') = run (λ b. (none, 7)) thousandths 500 unhedged (inl 4) troubled in
    (ending ≡ completed (pos 200)) × (w'.served ≡ 0 + 3) × (w'.closed ≡ names w'.made)
run_completes_example =
    run_completes (λ b. (none, 7)) thousandths 500 unhedged 4 2 (pos 200) troubled refl refl refl
      (λ b. refl) (omega arith) refl (λ j. omega arith) (λ t. omega arith) (omega arith)
      troubled_fails refl (omega arith)

-- The server has had enough.
abbrev strict : World
strict = record troubled { replies = λ k. (some (pos 429), none) }

run_leaks_example :
    let (ending, w') = run (λ b. (none, 7)) thousandths 500 unhedged (inl 4) strict in
    (ending ≡ request_failed rate_limited) × (w'.served ≡ 1) × (w'.made ≡ 1) × (w'.closed ≡ [])
run_leaks_example =
    run_leaks (λ b. (none, 7)) thousandths 500 unhedged 4 strict refl refl refl (omega arith)
      (omega arith) refl

-- The server is down.
abbrev down : World
down = record troubled { latency = λ k. 900_000_000; replies = λ k. (none, some (foreign k)) }

run_fails_example :
    let (ending, w') = run (λ b. (none, 7)) thousandths 500 unhedged (inl 4) down in
    (ending ≡ request_failed (join retry (foreign 2)))
    × (w'.served ≡ 0 + 3)
    × (w'.closed ≡ names w'.made)
run_fails_example =
    run_fails (λ b. (none, 7)) thousandths 500 unhedged 4 down refl refl refl (omega arith) refl
      (λ j. omega arith) (λ t. omega arith) (λ j h. tt)
