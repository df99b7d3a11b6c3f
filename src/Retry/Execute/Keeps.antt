-- ===== src/Retry/Execute/Keeps.antt =====
-- retry/retry.go: what the attempts keep, the whole loop keeps, and as they answer, so does the loop.
use resili.Prelude.{
  ℕ, zero, suc, Bool, true, false, not, inl, inr, ℤ, pos, Option, none, some, Bool-cases, ltb_ℤ,
  leb_ℤ, ◌&&◌, if◌then◌else◌, sub64,
}
use resili.Errors.{Err, Outcome}
use resili.Environment.{Clock, Cell}
use resili.Environment.Keeps.{ClockKeeps, CellKeeps, LeadsTo, Answers}
use resili.Retry.Budget.{Budget}
use resili.Retry.Policy.{RetryPolicy}
use resili.Retry.Execute.{
  RetryAction, Settings, settings, Turn, return, again, count_success, ask_budget, has_passed, wait,
  after_attempt, turn, loop, execute_with_result,
}

-- What holds after a turn: of the response that it returns, or of none.
abbrev Held : {W R : Type 0} → (R → W → Type 0) → R → Turn W R → Type 0
Held Q nil (return outcome w) = Q outcome.0 w
Held Q nil (again now err w) = Q nil w

record TurnKept {W R : Type 0} (Q : R → W → Type 0) (nil : R) (t : Turn W R) : Type 0 where
  holds : Held Q nil t

turn-both :
    {W R : Type 0} (Q : R → W → Type 0) (nil : R) (b : Bool) (s t : Turn W R)
    → TurnKept Q nil s
    → TurnKept Q nil t
    → TurnKept Q nil (if b then s else t)
turn-both Q nil true s t h k = h
turn-both Q nil false s t h k = k

returned :
    {W R : Type 0} {Q : R → W → Type 0} {nil : R} {o : Outcome R} {w : W}
    → Q o.0 w
    → TurnKept Q nil (return o w)
returned h = record { holds = h }

-- The budget of the policy, if there is a policy and it has one.
abbrev pub budget_in : {W R : Type 0} → Option (RetryPolicy W R) → Option (Cell W Budget)
budget_in none = none
budget_in (some policy) = policy.budget

abbrev pub BudgetKeeps : {W : Type 0} → Option (Cell W Budget) → (W → Type 0) → Type 0
BudgetKeeps none P = Unit
BudgetKeeps (some cell) P = CellKeeps cell P

count_success-Keeps :
    {W : Type 0} (P : W → Type 0) (budget : Option (Cell W Budget)) (w : W)
    → BudgetKeeps budget P
    → P w
    → P (count_success budget w)
count_success-Keeps P none w b h = h
count_success-Keeps P (some cell) w b h = b _ w h

ask_budget-Keeps :
    {W : Type 0} (P : W → Type 0) (budget : Option (Cell W Budget)) (w : W)
    → BudgetKeeps budget P
    → P w
    → P (ask_budget budget w).1
ask_budget-Keeps P none w b h = h
ask_budget-Keeps P (some cell) w b h = b _ w h

-- `Q k r` is what holds while `k` attempts are left and the loop has the response `r`.
module _ {W R : Type 0} (clock : Clock W) (nil : R) (action : RetryAction W R)
    (Q : ℕ → R → W → Type 0) (times : (k : ℕ) (r : R) → ClockKeeps clock (Q k r))
    (acts : (k : ℕ) → LeadsTo action.execute (Q (suc k) nil) (Q k))
    (discards : (k : ℕ) (r : R) (w : W) → Q k r w → Q k nil (action.discard_attempt r w))
    (weaken : (k : ℕ) (r : R) (w : W) → Q (suc k) r w → Q k r w) where
  module _ (s : Settings W R) (budget : (k : ℕ) (r : R) → BudgetKeeps s.budget (Q k r)) where
    wait-Kept :
        (k attempt : ℕ) (now : ℤ) (err : Option Err) (w : W)
        → Q k nil w
        → TurnKept (Q k) nil (wait clock nil action s attempt now err w)
    unfolding wait
    wait-Kept k attempt now err w h = elim (Bool-cases late) [
      | inl e ↦ rw e (returned h)
      | inr e ↦ rw e (record { holds = (times k nil).now _ ((times k nil).sleep _ w h) })
    ]
      where
        late : Bool
        late =
            ltb_ℤ (pos 0) action.request_deadline
            && leb_ℤ (sub64 action.request_deadline now) (pos 0)

    after_attempt-Kept :
        (k attempt : ℕ) (try_deadline now : ℤ) (resp : R) (err : Option Err) (w : W)
        → Q k resp w
        → TurnKept (Q k) nil (after_attempt clock nil action s attempt try_deadline now resp err w)
    unfolding after_attempt
    after_attempt-Kept k attempt try_deadline now resp err w h =
        turn-both (Q k) nil (has_passed try_deadline now) _ _ (returned (discards k resp w h)) (
          turn-both (Q k) nil (action.is_success resp err) _ _
            (returned (count_success-Keeps (Q k resp) s.budget w (budget k resp) h))
            (turn-both (Q k) nil (not (s.should_retry_fn resp err)) _ _ (returned h) (
              turn-both (Q k) nil (ask_budget s.budget w).0 _ _
                (wait-Kept k attempt now err _ asked) (returned asked))))
      where
        asked : Q k nil (action.discard_attempt resp (ask_budget s.budget w).1)
        asked = discards k resp _ (ask_budget-Keeps (Q k resp) s.budget w (budget k resp) h)

    turn-Kept :
        (k attempt : ℕ) (now : ℤ) (w : W)
        → Q (suc k) nil w
        → TurnKept (Q k) nil (turn clock nil action s attempt now nil w)
    unfolding turn
    turn-Kept k attempt now w h =
        turn-both (Q k) nil (has_passed action.request_deadline now) _ _
          (returned (discards k nil w (weaken k nil w h)))
          (after_attempt-Kept k attempt _ _ _ _ _ ((times k _).now _ (acts k w h)))

    none_left : (k : ℕ) (r : R) (w : W) → Q k r w → Q 0 r w
    none_left zero r w h = h
    none_left (suc k) r w h = none_left k r w (weaken k r w h)

    loop-LeadsTo :
        (left attempt : ℕ) (now : ℤ) (err : Option Err)
        → LeadsTo (loop clock nil action s left attempt now err) (Q left nil) (Q 0)
    unfolding loop
    loop-LeadsTo zero attempt now err w h = discards 0 nil w h
    loop-LeadsTo (suc left) attempt now err w h =
        go (turn clock nil action s attempt now nil w) (turn-Kept left attempt now w h)
          (loop-LeadsTo left (suc attempt))
      where
        go :
            (t : Turn W R)
            → TurnKept (Q left) nil t
            → ((now' : ℤ) (err' : Option Err)
                → LeadsTo (loop clock nil action s left (suc attempt) now' err') (Q left nil) (Q 0))
            → let o = elim t as (λ _. Outcome R × W) [
              | return outcome v ↦ (outcome, v)
              | again now' err' v ↦ loop clock nil action s left (suc attempt) now' err' v
            ] in
              Q 0 o.0.0 o.1
        go (return outcome v) k rest = none_left left outcome.0 v k.holds
        go (again now' err' v) k rest = rest now' err' v k.holds

  pub execute_with_result-LeadsTo :
      (policy : Option (RetryPolicy W R))
      → ((k : ℕ) (r : R) → BudgetKeeps (budget_in policy) (Q k r))
      → LeadsTo
          (execute_with_result clock nil policy action)
          (Q (settings clock nil action policy).attempts nil)
          (Q 0)
  unfolding execute_with_result settings
  execute_with_result-LeadsTo none b w h =
      let s = settings clock nil action none in loop-LeadsTo s b s.attempts 0 action.now none w h
  execute_with_result-LeadsTo (some policy) b w h =
      let s = settings clock nil action (some policy) in
      loop-LeadsTo s b s.attempts 0 action.now none w h

pub execute_with_result-Answers :
    {W R : Type 0} (clock : Clock W) (nil : R) (action : RetryAction W R) (Q : R → W → Type 0)
    → ((r : R) → ClockKeeps clock (Q r))
    → Answers action.execute nil Q
    → ((r : R) (w : W) → Q r w → Q nil (action.discard_attempt r w))
    → (policy : Option (RetryPolicy W R)) → ((r : R) → BudgetKeeps (budget_in policy) (Q r))
    → Answers (execute_with_result clock nil policy action) nil Q
execute_with_result-Answers clock nil action Q times acts discards policy budget =
    execute_with_result-LeadsTo clock nil action (λ _. Q) (λ _. times) (λ _. acts) (λ _. discards)
      (λ _ _ _ h. h) policy (λ _. budget)
