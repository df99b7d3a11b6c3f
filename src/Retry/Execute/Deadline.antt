-- ===== src/Retry/Execute/Deadline.antt =====
-- retry/retry.go: the deadline of the request, during the attempts and the waits between them.
use resili.Prelude.{
  ℕ, zero, suc, ◌≡◌, Bool, false, ℤ, pos, List, [], ◌∷◌, Option, none, some, arith, ◌≤ℤ◌, ◌<ℤ◌,
  Bool-cases, inl, inr,
}
use resili.Errors.{Err, Outcome}
use resili.Retry.Policy.{RetryPolicy}
use resili.Retry.Execute.{
  Settings, settings, turn, has_passed, try_limit, after_attempt, wait, again, return, Turn, loop,
  execute_with_result,
}
use resili.Retry.Execute.Attempts.{policy_of}
use resili.Retry.Execute.World.{World, world_clock, retry_action, Caller, attempt_of, budget_of}

abbrev pub AllBefore : ℤ → List ℤ → Type 0
AllBefore dl [] = Unit
AllBefore dl (t ∷ ts) = (t ≤ℤ dl) × AllBefore dl ts

-- No attempt has been started after the deadline, and the loop's variable `now` is what the clock
-- last showed.
abbrev InTime : {B : Type 0} → ℤ → Turn (World B) (Option B) → Type 0
InTime dl (return outcome w) = AllBefore dl w.starts
InTime dl (again now e w) = AllBefore dl w.starts × (w.last ≡ now)

has_passed_not : (dl now : ℤ) → pos 0 <ℤ dl → has_passed dl now ≡ false → now ≤ℤ dl
has_passed_not dl now h e = ground arith

module _ {B : Type 0} (c : Caller B) (s : Settings (World B) (Option B)) (b : Bool) where
  abbrev with_budget : Settings (World B) (Option B)
  with_budget = record s { budget = budget_of b }

  after_attempt-InTime :
      (attempt : ℕ) (try_deadline now : ℤ) (r : Option B) (err : Option Err) (w : World B)
      → AllBefore c.request_deadline w.starts
      → InTime c.request_deadline (
          after_attempt world_clock none
            (retry_action c)
            with_budget
            attempt
            try_deadline
            now
            r
            err
            w)
  unfolding after_attempt wait
  after_attempt-InTime attempt try_deadline now none err w h = ground arith
  after_attempt-InTime attempt try_deadline now (some body) err w h = ground arith

  turn-InTime :
      (attempt : ℕ) (w : World B)
      → pos 0 <ℤ c.request_deadline
      → AllBefore c.request_deadline w.starts
      → InTime c.request_deadline
          (turn world_clock none (retry_action c) with_budget attempt w.last none w)
  unfolding turn
  turn-InTime attempt w dl h = elim (Bool-cases (has_passed c.request_deadline w.last)) [
    | inl late ↦ rw late h
    | inr early ↦ rw early (
        after_attempt-InTime attempt (try_limit with_budget w.last) (w.clock w.reads)
          (w.outcomes w.executed).0 (w.outcomes w.executed).1 (world_clock.now (attempt_of w).1).1
          (has_passed_not c.request_deadline w.last dl early, h))
  ]

  loop-InTime :
      (left attempt : ℕ) (now : ℤ) (err : Option Err) (w : World B)
      → w.last ≡ now
      → pos 0 <ℤ c.request_deadline
      → AllBefore c.request_deadline w.starts
      → AllBefore c.request_deadline
          (loop world_clock none (retry_action c) with_budget left attempt now err w).1.starts
  unfolding loop
  loop-InTime zero attempt now err w e dl h = h
  loop-InTime (suc left) attempt now err w e dl h =
      go (turn world_clock none (retry_action c) with_budget attempt now none w)
        (rw (← e) (turn-InTime attempt w dl h)) (loop-InTime left (suc attempt))
    where
      go :
          (t : Turn (World B) (Option B))
          → InTime c.request_deadline t
          → ((now' : ℤ) (err' : Option Err) (w₁ : World B)
              → w₁.last ≡ now'
              → pos 0 <ℤ c.request_deadline
              → AllBefore c.request_deadline w₁.starts
              → AllBefore c.request_deadline
                  (loop world_clock none
                    (retry_action c)
                    with_budget
                    left
                    (suc attempt)
                    now'
                    err'
                    w₁).1.starts)
          → AllBefore c.request_deadline (
              let r : Outcome (Option B) × World B = elim t [
                | return outcome w₁ ↦ (outcome, w₁)
                | again now' err' w₁ ↦
                    loop world_clock none
                      (retry_action c)
                      with_budget
                      left
                      (suc attempt)
                      now'
                      err'
                      w₁
              ] in
              r.1.starts)
      go (return outcome w₁) a rest = a
      go (again now' err' w₁) a rest = rest now' err' w₁ a.1 dl a.0

-- A request with a deadline: at the start of every attempt, what the clock showed last (when the
-- request came in, or after the last wait) is not past the deadline. This holds for every policy, and
-- for one that is nil.
pub execute_in_time :
    {B : Type 0} (c : Caller B) (b : Bool) (p : Option (RetryPolicy (World B) (Option B)))
    (w : World B)
    → w.last ≡ c.now
    → pos 0 <ℤ c.request_deadline
    → AllBefore c.request_deadline w.starts
    → AllBefore c.request_deadline
        (execute_with_result world_clock none (policy_of b p) (retry_action c) w).1.starts
unfolding execute_with_result
execute_in_time c b none w e dl h =
    let s = settings world_clock none (retry_action c) none in
    loop-InTime c s false s.attempts 0 c.now none w e dl h
execute_in_time c b (some p) w e dl h =
    let s = settings world_clock none (retry_action c) (policy_of b (some p)) in
    loop-InTime c s b s.attempts 0 c.now none w e dl h
