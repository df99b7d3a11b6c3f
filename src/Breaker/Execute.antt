-- ===== src/Breaker/Execute.antt =====
-- breaker/breaker.go, ExecuteWithResult and Execute: the sections of the breaker around the action.
-- Between two sections the world, the breaker in it included, may have changed.
pub mod World
pub mod Keeps
pub mod Closed
pub mod Failing
pub mod Recovery
pub mod Spec
use resili.Prelude.{ℕ, Option, none, some, if◌then◌else◌}
use resili.Errors.{Err, circuit_open, Outcome}
use resili.Environment.{Clock, Cell, Action, modify}
use resili.Breaker.State.{
  CircuitBreaker, State, state_closed, state_open, state_half_open, Admission, rejected, probe,
  passed, count_request, count_failure, over_threshold, trip, admit, settle, is_failure, is_closed,
  is_half_open,
}

module _ {W R : Type 0} (clock : Clock W) (zero : R) (cell : Cell W CircuitBreaker) where
  -- The clock is read only if the circuit opens.
  abbrev tripped : W → W
  tripped w =
      if is_closed (cell.get w).state
      then (let (now, w₁) = clock.now w in modify cell (trip now) w₁)
      else w

  -- The fast path after the action: count a failure, then open the circuit over the threshold.
  unfoldable pub finish_fast : ℕ → Option Err → W → W
  finish_fast window err w =
      let w₁ = if is_failure (cell.get w) err then modify cell (count_failure window) w else w in
      if over_threshold (cell.get w₁) ((cell.get w₁).windows window) then tripped w₁ else w₁

  unfoldable pub execute_fast : Action W R → W → Outcome R × W
  unfolding finish_fast
  execute_fast action w =
      let w₁ = modify cell (count_request action.now) w in
      let window = (cell.get w₁).window in
      let ((resp, err), w₂) = action.execute w₁ in ((resp, err), finish_fast window err w₂)

  -- The clock is read once if the probe failed, and twice if it succeeded.
  abbrev settled : Option Err → W → W
  settled err w =
      if is_half_open (cell.get w).state
      then (let (now₁, w₁) = clock.now w in
          if is_failure (cell.get w) err
          then modify cell (settle err now₁ now₁) w₁
          else (let (now₂, w₂) = clock.now w₁ in modify cell (settle err now₁ now₂) w₂))
      else w

  unfoldable pub resume_slow : Admission → Action W R → W → Outcome R × W
  resume_slow rejected action w = ((zero, some circuit_open), w)
  resume_slow probe action w =
      let ((resp, err), w₁) = action.execute w in ((resp, err), settled err w₁)
  resume_slow passed action w =
      let ((resp, err), w₁) = action.execute w in ((resp, err), settled err w₁)

  unfoldable pub execute_slow : Action W R → W → Outcome R × W
  unfolding resume_slow
  execute_slow action w =
      let (now, w₁) = clock.now w in
      let (cb, admission) = admit now (cell.get w₁) in resume_slow admission action (cell.put cb w₁)

  unfoldable pub execute_with_result : Action W R → W → Outcome R × W
  unfolding execute_fast execute_slow
  execute_with_result action w = elim ((cell.get w).state) [
    | state_closed ↦ execute_fast action w
    | _ ↦ execute_slow action w
  ]

  unfoldable pub execute : Action W R → W → Option Err × W
  unfolding execute_with_result
  execute action w = let ((resp, err), w₁) = execute_with_result action w in (err, w₁)
