-- ===== src/Breaker/Execute/Keeps.antt =====
-- breaker/breaker.go: what the action keeps, the call of the breaker around it keeps, and as the
-- action answers, so does the call.
use resili.Prelude.{ℕ, if◌then◌else◌, Option}
use resili.Errors.{Err, Outcome}
use resili.Environment.{Clock, Cell, Action, modify}
use resili.Environment.Keeps.{ClockKeeps, CellKeeps, Keeps, LeadsTo, Answers, if-both}
use resili.Breaker.State.{
  CircuitBreaker, State, state_closed, state_open, state_half_open, Admission, rejected, probe,
  passed, count_failure, is_failure, over_threshold, is_closed, is_half_open, admit,
}
use resili.Breaker.Execute.{
  execute_with_result, execute_fast, execute_slow, resume_slow, finish_fast, settled, tripped,
}

module _ {W R : Type 0} (clock : Clock W) (zero : R) (cell : Cell W CircuitBreaker) (P : W → Type 0)
    (times : ClockKeeps clock P) (puts : CellKeeps cell P) where
  tripped-Keeps : (w : W) → P w → P (tripped clock zero cell w)
  tripped-Keeps w h = if-both P (is_closed (cell.get w).state) _ w (puts _ _ (times.now w h)) h

  finish_fast-Keeps :
      (window : ℕ) (err : Option Err) (w : W) → P w → P (finish_fast clock zero cell window err w)
  unfolding finish_fast
  finish_fast-Keeps window err w h =
      if-both P (over_threshold (cell.get w₁) ((cell.get w₁).windows window)) _ w₁
        (tripped-Keeps w₁ h₁) h₁
    where
      w₁ : W
      w₁ = if is_failure (cell.get w) err then modify cell (count_failure window) w else w

      h₁ : P w₁
      h₁ = if-both P (is_failure (cell.get w) err) _ w (puts _ w h) h

  settled-Keeps : (err : Option Err) (w : W) → P w → P (settled clock zero cell err w)
  settled-Keeps err w h =
      if-both P (is_half_open (cell.get w).state) _ w
        (if-both P (is_failure (cell.get w) err) _ _ (puts _ _ (times.now w h))
          (puts _ _ (times.now _ (times.now w h))))
        h

module _ {W R : Type 0} (clock : Clock W) (zero : R) (cell : Cell W CircuitBreaker)
    (action : Action W R) where
  module _ (P : W → Type 0) (Q : R → W → Type 0) (enter : (w : W) → P w → Q zero w)
      (times₀ : ClockKeeps clock P) (puts₀ : CellKeeps cell P)
      (times : (r : R) → ClockKeeps clock (Q r)) (puts : (r : R) → CellKeeps cell (Q r))
      (acts : LeadsTo action.execute P Q) where
    execute_fast-LeadsTo : LeadsTo (execute_fast clock zero cell action) P Q
    unfolding execute_fast
    execute_fast-LeadsTo w h =
        finish_fast-Keeps clock zero cell (Q _) (times _) (puts _) _ _ _ (acts _ (puts₀ _ w h))

    resume_slow-LeadsTo : (a : Admission) → LeadsTo (resume_slow clock zero cell a action) P Q
    unfolding resume_slow
    resume_slow-LeadsTo rejected w h = enter w h
    resume_slow-LeadsTo probe w h =
        settled-Keeps clock zero cell (Q _) (times _) (puts _) _ _ (acts w h)
    resume_slow-LeadsTo passed w h =
        settled-Keeps clock zero cell (Q _) (times _) (puts _) _ _ (acts w h)

    execute_slow-LeadsTo : LeadsTo (execute_slow clock zero cell action) P Q
    unfolding execute_slow
    execute_slow-LeadsTo w h =
        resume_slow-LeadsTo (admit (clock.now w).0 (cell.get (clock.now w).1)).1 _
          (puts₀ _ _ (times₀.now w h))

    pub execute_with_result-LeadsTo : LeadsTo (execute_with_result clock zero cell action) P Q
    unfolding execute_with_result
    execute_with_result-LeadsTo w h = go (cell.get w).state
      where
        go :
            (s : State)
            → let o = elim s as (λ _. Outcome R × W) [
              | state_closed ↦ execute_fast clock zero cell action w
              | _ ↦ execute_slow clock zero cell action w
            ] in
              Q o.0.0 o.1
        go state_closed = execute_fast-LeadsTo w h
        go state_open = execute_slow-LeadsTo w h
        go state_half_open = execute_slow-LeadsTo w h

  pub execute_with_result-Answers :
      (Q : R → W → Type 0)
      → ((r : R) → ClockKeeps clock (Q r))
      → ((r : R) → CellKeeps cell (Q r))
      → Answers action.execute zero Q
      → Answers (execute_with_result clock zero cell action) zero Q
  execute_with_result-Answers Q times puts =
      execute_with_result-LeadsTo (Q zero) Q (λ _ h. h) (times zero) (puts zero) times puts

  pub execute_with_result-Keeps :
      (P : W → Type 0)
      → ClockKeeps clock P
      → CellKeeps cell P
      → Keeps action.execute P
      → Keeps (execute_with_result clock zero cell action) P
  execute_with_result-Keeps P times puts =
      execute_with_result-Answers (λ _. P) (λ _. times) (λ _. puts)
