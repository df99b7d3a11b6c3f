-- ===== src/Limiter/Execute/Keeps.antt =====
-- limiter/limiter.go: what the action keeps, the call of the limiter around it keeps, and as the
-- action answers, so does the call.
use resili.Prelude.{inl, inr, not, Bool-cases}
use resili.Environment.{Clock, Cell, Action}
use resili.Environment.Keeps.{ClockKeeps, CellKeeps, Keeps, LeadsTo, Answers}
use resili.Limiter.State.{Limiter, acquire}
use resili.Limiter.Execute.{execute_with_result}

module _ {W R : Type 0} (clock : Clock W) (zero : R) (cell : Cell W Limiter)
    (action : Action W R) where
  pub execute_with_result-LeadsTo :
      (P : W → Type 0) (Q : R → W → Type 0)
      → ((w : W) → P w → Q zero w)
      → CellKeeps cell P
      → ((r : R) → ClockKeeps clock (Q r))
      → ((r : R) → CellKeeps cell (Q r))
      → LeadsTo action.execute P Q
      → LeadsTo (execute_with_result clock zero cell action) P Q
  unfolding execute_with_result
  execute_with_result-LeadsTo P Q enter takes times puts acts w h =
      elim (Bool-cases (not (acquire action.now (cell.get w)).2)) [
        | inl full ↦ rw full (enter _ taken)
        | inr free ↦ rw free (puts _ _ _ ((times _).now _ (acts _ taken)))
      ]
    where
      taken : P (cell.put (acquire action.now (cell.get w)).0 w)
      taken = takes _ w h

  pub execute_with_result-Answers :
      (Q : R → W → Type 0)
      → ((r : R) → ClockKeeps clock (Q r))
      → ((r : R) → CellKeeps cell (Q r))
      → Answers action.execute zero Q
      → Answers (execute_with_result clock zero cell action) zero Q
  execute_with_result-Answers Q times puts =
      execute_with_result-LeadsTo (Q zero) Q (λ _ h. h) (puts zero) times puts

  pub execute_with_result-Keeps :
      (P : W → Type 0)
      → ClockKeeps clock P
      → CellKeeps cell P
      → Keeps action.execute P
      → Keeps (execute_with_result clock zero cell action) P
  execute_with_result-Keeps P times puts =
      execute_with_result-Answers (λ _. P) (λ _. times) (λ _. puts)
