-- ===== src/Retry/Execute.antt =====
-- retry/retry.go: the retry loop over an action, for any world that the action changes.
pub mod World
pub mod Attempts
pub mod Exhaustion
pub mod Deadline
pub mod Keeps
pub mod Recovery
use resili.Prelude.{
  ℕ, zero, suc, ◌+◌, Bool, true, false, not, ◌&&◌, ℤ, pos, negsuc, Option, none, some, ltb_ℤ, leb_ℤ,
  add64, sub64, if◌then◌else◌,
}
use resili.Errors.{Err, timeout, retry, Outcome}
use resili.Environment.{Clock, Cell, Action, modify}
use resili.Retry.Budget.{Budget, record_success, allow_retry}
use resili.Retry.Policy.{RetryPolicy, linear_backoff}

-- The interface ResultAction of retry/. An adapter without DiscardAttempt releases nothing:
-- `discard_attempt resp w = w`.
pub record RetryAction (W R : Type 0) : Type 0 where
  pub action : Action W R
  pub open action use *
  pub is_success : R → Option Err → Bool
  pub should_retry_default : R → Option Err → Bool
  pub final_err : Option Err → Option Err
  pub discard_attempt : R → W → W

-- The local variables that the policy and its defaults determine.
pub record Settings (W R : Type 0) : Type 0 where
  pub attempts : ℕ
  pub backoff_fn : ℕ → ℤ
  pub should_retry_fn : R → Option Err → Bool
  pub budget : Option (Cell W Budget)
  pub per_try_timeout : ℤ

-- `maxAttempts`, at least 1.
abbrev pub rounds : ℤ → ℕ
rounds (pos zero) = 1
rounds (pos (suc n)) = suc n
rounds (negsuc n) = 1

abbrev pub get_or_else : {A : Type 0} → Option A → A → A
get_or_else none a = a
get_or_else (some b) a = b

-- How a turn of the loop ends: with a return, or with a next turn at the time `now`.
pub data Turn (W R : Type 0) : Type 0 where
  return : Outcome R → W → Turn W R
  again : (now : ℤ) (err : Option Err) → W → Turn W R

module _ {W : Type 0} where
  abbrev pub count_success : Option (Cell W Budget) → W → W
  count_success none w = w
  count_success (some cell) w = modify cell record_success w

  -- `budget != nil && !budget.AllowRetry()` is the negation of the result.
  abbrev pub ask_budget : Option (Cell W Budget) → W → Bool × W
  ask_budget none w = (true, w)
  ask_budget (some cell) w = let (b, granted) = allow_retry (cell.get w) in (granted, cell.put b w)

abbrev pub has_passed : ℤ → ℤ → Bool
has_passed deadline now = ltb_ℤ (pos 0) deadline && ltb_ℤ deadline now

-- The deadline of an attempt that starts at `now`, or 0.
abbrev pub try_limit : {W R : Type 0} → Settings W R → ℤ → ℤ
try_limit s now = if ltb_ℤ (pos 0) s.per_try_timeout then add64 now s.per_try_timeout else pos 0

module _ {W R : Type 0} (clock : Clock W) (nil : R) where
  unfoldable pub settings : RetryAction W R → Option (RetryPolicy W R) → Settings W R
  settings action none = record {
    attempts = 1;
    backoff_fn = linear_backoff;
    should_retry_fn = action.should_retry_default;
    budget = none;
    per_try_timeout = pos 0;
  }
  settings action (some policy) = record {
    attempts = rounds policy.max_attempts;
    backoff_fn = get_or_else policy.backoff linear_backoff;
    should_retry_fn = get_or_else policy.should_retry action.should_retry_default;
    budget = policy.budget;
    per_try_timeout = policy.try_deadline;
  }

  -- The wait before the next attempt, no longer than what is left until the deadline.
  unfoldable pub wait : RetryAction W R → Settings W R → ℕ → ℤ → Option Err → W → Turn W R
  wait action s attempt now err w =
      let dl = action.request_deadline in
      let delay = s.backoff_fn attempt in
      let remaining = sub64 dl now in
      let clamped = if ltb_ℤ (pos 0) dl && ltb_ℤ remaining delay then remaining else delay in
      if ltb_ℤ (pos 0) dl && leb_ℤ remaining (pos 0)
      then return (nil, some timeout) w
      else (let (woken, w₁) = clock.now (clock.sleep clamped w) in again woken err w₁)

  -- What follows an attempt that ended, at the time `now`, with `resp` and `err`.
  unfoldable pub after_attempt :
      RetryAction W R → Settings W R → ℕ → ℤ → ℤ → R → Option Err → W → Turn W R
  after_attempt action s attempt try_deadline now resp err w =
      if has_passed try_deadline now
      then return (nil, some timeout) (action.discard_attempt resp w)
      else if action.is_success resp err
      then return (resp, none) (count_success s.budget w)
      else if not (s.should_retry_fn resp err)
      then return (resp, err) w
      else (let (granted, w₁) = ask_budget s.budget w in
          let w₂ = action.discard_attempt resp w₁ in
          if granted then wait action s attempt now err w₂ else return (nil, some retry) w₂)

  -- One turn of the loop, at the time `now`; `resp` is the value of the variable, nil again.
  unfoldable pub turn : RetryAction W R → Settings W R → ℕ → ℤ → R → W → Turn W R
  turn action s attempt now resp w =
      if has_passed action.request_deadline now
      then return (nil, some timeout) (action.discard_attempt resp w)
      else (let try_deadline = try_limit s now in
          let ((resp', err), w₁) = action.execute w in
          let (now', w₂) = clock.now w₁ in
          after_attempt action s attempt try_deadline now' resp' err w₂)

  -- `left` turns are left; `attempt` counts those made.
  unfoldable pub loop : RetryAction W R → Settings W R → ℕ → ℕ → ℤ → Option Err → W → Outcome R × W
  loop action s zero attempt now err w = ((nil, action.final_err err), action.discard_attempt nil w)
  loop action s (suc left) attempt now err w = elim (turn action s attempt now nil w) [
    | return outcome w₁ ↦ (outcome, w₁)
    | again now' err' w₁ ↦ loop action s left (suc attempt) now' err' w₁
  ]

  unfoldable pub execute_with_result :
      Option (RetryPolicy W R) → RetryAction W R → W → Outcome R × W
  unfolding settings loop
  execute_with_result policy action w =
      let s = settings action policy in loop action s s.attempts 0 action.now none w

  unfoldable pub execute : Option (RetryPolicy W R) → RetryAction W R → W → Option Err × W
  unfolding execute_with_result
  execute policy action w = let ((resp, err), w₁) = execute_with_result policy action w in (err, w₁)
