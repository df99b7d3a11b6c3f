-- ===== src/Timeout/Strict.antt =====
-- timeout/timeout.go: no result after the deadline.
use resili.Prelude.{ℤ, ◌≡◌, ◌≢◌, some, ◌≤ℤ◌, arith}
use resili.Errors.{timeout}
use resili.Environment.{Clock, Action}
use resili.Timeout.{execute_with_result, deadline_from}

-- A call that does not end in ErrTimeout has executed its action, returns just what it returned, and
-- the clock, read after it, was not past the deadline; nor was the request late when it came.
pub execute_strict :
    {W R : Type 0} (clock : Clock W) (zero : R) (d : ℤ) (action : Action W R) (w : W)
    → (execute_with_result clock zero d action w).0.1 ≢ some timeout
    → let deadline = deadline_from d action.now action.request_deadline in
      let (outcome, w₁) = action.execute w in
      (execute_with_result clock zero d action w ≡ (outcome, (clock.now w₁).1))
      × ((clock.now w₁).0 ≤ℤ deadline)
      × (action.now ≤ℤ deadline)
unfolding execute_with_result
execute_strict clock zero d action w h = ground arith
