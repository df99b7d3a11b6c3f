-- ===== src/Timeout/Keeps.antt =====
-- timeout/timeout.go: what the action keeps, the call of the timeout around it keeps, and
-- as the action answers, so does the call, where a response may be dropped.
use resili.Prelude.{ltb_ℤ, Bool-cases, inl, inr, ℤ}
use resili.Environment.{Clock, Action}
use resili.Environment.Keeps.{ClockKeeps, Keeps, LeadsTo, Answers}
use resili.Timeout.{execute_with_result, deadline_from}

module _ {W R : Type 0} (clock : Clock W) (zero : R) (d : ℤ) (action : Action W R) where
  pub execute_with_result-LeadsTo :
      (P : W → Type 0) (Q : R → W → Type 0)
      → ((w : W) → P w → Q zero w)
      → ((r : R) → ClockKeeps clock (Q r))
      → ((r : R) (w : W) → Q r w → Q zero w)
      → LeadsTo action.execute P Q
      → LeadsTo (execute_with_result clock zero d action) P Q
  unfolding execute_with_result
  execute_with_result-LeadsTo P Q enter times drops acts w h =
      elim (Bool-cases (ltb_ℤ deadline action.now)) [
        | inl e ↦ rw e (enter w h)
        | inr e ↦ rw e (elim (Bool-cases (ltb_ℤ deadline (clock.now (action.execute w).1).0)) [
          | inl f ↦ rw f (drops _ _ after)
          | inr f ↦ rw f after
        ])
      ]
    where
      deadline : ℤ
      deadline = deadline_from d action.now action.request_deadline

      after : Q (action.execute w).0.0 (clock.now (action.execute w).1).1
      after = (times _).now _ (acts w h)

  pub execute_with_result-Answers :
      (Q : R → W → Type 0)
      → ((r : R) → ClockKeeps clock (Q r))
      → ((r : R) (w : W) → Q r w → Q zero w)
      → Answers action.execute zero Q
      → Answers (execute_with_result clock zero d action) zero Q
  execute_with_result-Answers Q = execute_with_result-LeadsTo (Q zero) Q (λ _ h. h)

  pub execute_with_result-Keeps :
      (P : W → Type 0)
      → ClockKeeps clock P
      → Keeps action.execute P
      → Keeps (execute_with_result clock zero d action) P
  execute_with_result-Keeps P times = execute_with_result-Answers (λ _. P) (λ _. times) (λ _ _ h. h)
