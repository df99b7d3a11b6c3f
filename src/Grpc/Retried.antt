-- ===== src/Grpc/Retried.antt =====
-- rgrpc/retry.go: the retry middleware on a call that is not retried.
use resili.Prelude.{ℕ, suc, ◌≡◌, refl, false, ℤ, pos, negsuc, Option, none, some, arith}
use resili.Errors.{Err}
use resili.Environment.{Clock}
use resili.Retry.Policy.{RetryPolicy}
use resili.Retry.Execute.{count_success, rounds}
use resili.Grpc.Status.{should_retry_default}
use resili.Grpc.{Request, Handler, new_retry_middleware}

rounds-positive : (n : ℤ) → (k : ℕ) × (rounds n ≡ suc k)
rounds-positive (pos ℕ.zero) = (0, refl)
rounds-positive (pos (suc k)) = (k, refl)
rounds-positive (negsuc n) = (0, refl)

-- Without deadlines, and under a policy with no predicate of its own, a call that succeeds, or ends
-- with a status that is not transient, is made once, whatever the policy's attempts, budget and
-- backoff: its error is returned as it is, and only a success counts for the budget.
pub settled_once :
    {X C W : Type 0} (clock : Clock W) (zero : Request X C W) (status_code : Err → Option ℤ)
    (policy : RetryPolicy W (Request X C W)) (next : Handler X C W) (req : Request X C W) (w : W)
    (err : Option Err)
    → (next req w).0 ≡ err
    → should_retry_default status_code err ≡ false
    → policy.should_retry ≡ none
    → policy.try_deadline ≡ pos 0
    → req.request_deadline ≡ pos 0
    → let w₁ = (clock.now (next req w).1).1 in
      new_retry_middleware clock zero status_code (some policy) next req w
      ≡ (err, elim err [ none ↦ count_success policy.budget w₁ | some _ ↦ w₁ ])
unfolding new_retry_middleware resili.Retry.Execute.execute resili.Retry.Execute.turn
    resili.Retry.Execute.after_attempt should_retry_default resili.Grpc.Status.is_success
    resili.Retry.Execute.loop resili.Retry.Execute.settings
settled_once clock zero status_code policy next req w err e final own no_try no_deadline =
    ground (arith, rounds-positive policy.max_attempts)
