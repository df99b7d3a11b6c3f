-- ===== src/Http/Client/Accounts.antt =====
-- rhttp/client.go: what becomes of the bodies of the responses, through every middleware but the hedge
-- one.
pub mod Requests
pub mod Hedging
pub mod Load
pub mod Bodies
pub mod Fanout
use resili.Prelude.{
  ℕ, suc, ◌+◌, ◌≤◌, ◌≡◌, Bool, true, false, ℤ, Option, none, some, List, [], ◌∷◌, arith, is_it,
  occurrences, ltb, if◌then◌else◌,
}
use resili.Errors.{Err}
use resili.Environment.{Clock, Cell}
use resili.Environment.Keeps.{ClockKeeps, CellKeeps, Answers}
use resili.Limiter.State.{Limiter}
use resili.Limiter.Execute.Keeps as LimiterKeeps
use resili.Breaker.State.{CircuitBreaker}
use resili.Breaker.Execute.Keeps as BreakerKeeps
use resili.Timeout.{execute_with_result}
use resili.Timeout.Keeps as TimeoutKeeps
use resili.Retry.Budget.{Budget}
use resili.Retry.Policy.{RetryPolicy}
use resili.Retry.Execute.Keeps as RetryKeeps
use resili.Retry.Execute.Keeps.{BudgetKeeps, budget_in}
use resili.Http.Classifier.{Response}
use resili.Http.Middleware.{
  Handler, Request, Reply, action_of, retry_action_of, discard_attempt, guard_reply, guarded,
  set_deadline, is_timeout, new_limiter_middleware, new_breaker_middleware,
  new_classifier_middleware, new_timeout_middleware, new_retry_middleware,
}

-- The bodies are named 0, 1 and so on as they are opened; `made` is the next name. `replies k` is how
-- the server answers the attempt number `k`: a status code or none, and an error or none.
pub record World : Type 0 where
  pub limiter : Limiter
  pub cb : CircuitBreaker
  pub budget : Budget
  pub clock : ℕ → ℤ
  pub reads : ℕ
  pub replies : ℕ → Option ℤ × Option Err
  pub served : ℕ
  pub made : ℕ
  pub closed : List ℕ

abbrev pub world_clock : Clock World
world_clock = record {
  now = λ w. (w.clock w.reads, record w { reads = suc w.reads });
  sleep = λ d w. w;
}

abbrev pub limiter_cell : Cell World Limiter
limiter_cell = record { get = λ w. w.limiter; put = λ l w. record w { limiter = l } }

abbrev pub cb_cell : Cell World CircuitBreaker
cb_cell = record { get = λ w. w.cb; put = λ cb w. record w { cb = cb } }

abbrev pub budget_cell : Cell World Budget
budget_cell = record { get = λ w. w.budget; put = λ b w. record w { budget = b } }

-- What the retry middleware is given: no policy, or one, with the budget of the world or without one.
pub data Retrying : Type 0 where
  nil_policy : Retrying
  by_policy : (budgeted : Bool) (policy : RetryPolicy World (Option Response)) → Retrying

abbrev pub policy_of : Retrying → Option (RetryPolicy World (Option Response))
policy_of nil_policy = none
policy_of (by_policy true policy) = some (record policy { budget = some budget_cell })
policy_of (by_policy false policy) = some (record policy { budget = none })

-- What reads and writes nothing of the budget is kept by it.
pub budget-keeps :
    (retrying : Retrying) (P : World → Type 0)
    → CellKeeps budget_cell P
    → BudgetKeeps (budget_in (policy_of retrying)) P
budget-keeps nil_policy P h = tt
budget-keeps (by_policy true policy) P h = h
budget-keeps (by_policy false policy) P h = tt

abbrev pub close_body : ℕ → World → World
close_body b w = record w { closed = b ∷ w.closed }

abbrev pub opened : Option ℤ × Option Err → World → Reply × World
opened (none, err) w = ((none, err), w)
opened (some code, err) w = (
  (some (record { status_code = code; body = some w.made }), err),
  record w { made = suc w.made },
)

abbrev pub serve : {Q : Type 0} → Handler Q World
serve req w = opened (w.replies w.served) (record w { served = suc w.served })

abbrev pub body_is : ℕ → Option Response → ℕ
body_is c none = 0
body_is c (some resp) = is_it c resp.body

-- Equal, or at most that.
abbrev pub IsWithin : Bool → ℕ → ℕ → Type 0
IsWithin true m n = m ≡ n
IsWithin false m n = m ≤ n

-- How often the body `c` was closed, and is held: `held` times by the caller, and by the response that
-- is under way. Together that is once, or at most once, after it was opened, and 0 before.
abbrev pub IsAccounted : Bool → ℕ → ℕ → Option Response → World → Type 0
IsAccounted exact c held resp w =
    IsWithin exact (occurrences c w.closed + held + body_is c resp) (if ltb c w.made then 1 else 0)

abbrev pub HandlerAnswers : {Q : Type 0} → Bool → ℕ → ℕ → Handler Q World → Type 0
HandlerAnswers {Q} exact c held next =
    (req : Request Q) → Answers (next req) none (IsAccounted exact c held)

module _ (c held : ℕ) where
  times :
      (exact : Bool) (resp : Option Response)
      → ClockKeeps world_clock (IsAccounted exact c held resp)
  times exact resp = record { now = λ w h. h; sleep = λ d w h. h }

  discard-IsAccounted :
      (exact : Bool) (resp : Option Response) (w : World)
      → IsAccounted exact c held resp w
      → IsAccounted exact c held none (discard_attempt world_clock close_body resp w)
  discard-IsAccounted true none w h = h
  discard-IsAccounted false none w h = h
  discard-IsAccounted true (some resp) w h = ground arith
  discard-IsAccounted false (some resp) w h = ground arith

  drop-IsAccounted :
      (resp : Option Response) (w : World)
      → IsAccounted false c held resp w
      → IsAccounted false c held none w
  drop-IsAccounted resp w h = omega arith

  opened-IsAccounted :
      (exact : Bool) (answer : Option ℤ × Option Err) (w : World)
      → IsAccounted exact c held none w
      → IsAccounted exact c held (opened answer w).0.0 (opened answer w).1
  opened-IsAccounted true (none, err) w h = h
  opened-IsAccounted false (none, err) w h = h
  opened-IsAccounted true (some code, err) w h = ground arith
  opened-IsAccounted false (some code, err) w h = ground arith

  guard-IsAccounted :
      (deadline : ℤ) (resp : Option Response) (err : Option Err) (w : World)
      → IsAccounted false c held resp w
      → let o = guard_reply world_clock close_body deadline resp err w in
        IsAccounted false c held o.0.0 o.1
  guard-IsAccounted deadline none err w h = h
  guard-IsAccounted deadline (some resp) (some err) w h = h
  guard-IsAccounted deadline (some resp) none w h = ground arith

-- What the timeout middleware has before it looks for ErrTimeout.
abbrev pub timed : {Q : Type 0} → Handler Q World → ℤ → Request Q → World → Reply × World
timed next d req =
    execute_with_result world_clock none d
      (action_of world_clock close_body (guarded world_clock close_body next) (set_deadline d req))

module _ {Q : Type 0} (c held : ℕ) where
  pub serve-answers : (exact : Bool) → HandlerAnswers {Q = Q} exact c held serve
  serve-answers exact req w h =
      opened-IsAccounted c held exact (w.replies w.served) (record w { served = suc w.served }) h

  module _ (exact : Bool) (next : Handler Q World)
      (answers : HandlerAnswers exact c held next) where
    pub limiter-answers :
        HandlerAnswers exact c held
          (new_limiter_middleware world_clock close_body limiter_cell next)
    unfolding new_limiter_middleware
    limiter-answers req =
        LimiterKeeps.execute_with_result-Answers world_clock none limiter_cell
          (action_of world_clock close_body next req) (IsAccounted exact c held)
          (times c held exact) (λ _ _ _ h. h) (answers req)

    pub breaker-answers :
        HandlerAnswers exact c held (new_breaker_middleware world_clock close_body cb_cell next)
    unfolding new_breaker_middleware
    breaker-answers req =
        BreakerKeeps.execute_with_result-Answers world_clock none cb_cell
          (action_of world_clock close_body next req) (IsAccounted exact c held)
          (times c held exact) (λ _ _ _ h. h) (answers req)

    pub classifier-answers :
        HandlerAnswers exact c held (new_classifier_middleware world_clock close_body next)
    unfolding new_classifier_middleware
    classifier-answers req w h = answers req w h

    pub retry-answers :
        (retrying : Retrying)
        → HandlerAnswers exact c held
            (new_retry_middleware world_clock close_body (policy_of retrying) next)
    unfolding new_retry_middleware
    retry-answers retrying req =
        RetryKeeps.execute_with_result-Answers world_clock none
          (retry_action_of world_clock close_body next req) (IsAccounted exact c held)
          (times c held exact) (answers req) (discard-IsAccounted c held exact) (policy_of retrying)
          (λ resp. budget-keeps retrying (IsAccounted exact c held resp) (λ _ _ h. h))

  guarded-answers :
      (next : Handler Q World)
      → HandlerAnswers false c held next
      → HandlerAnswers false c held (guarded world_clock close_body next)
  guarded-answers next answers req w h =
      let ((resp, err), w₁) = next req w in
      guard-IsAccounted c held req.request_deadline resp err w₁ (answers req w h)

  pub timeout-answers :
      (next : Handler Q World)
      → HandlerAnswers false c held next
      → (d : ℤ) → HandlerAnswers false c held (new_timeout_middleware world_clock close_body d next)
  unfolding new_timeout_middleware
  timeout-answers next answers d req w h = go (is_timeout (timed next d req w).0.1) (
      TimeoutKeeps.execute_with_result-Answers world_clock none d
        (action_of world_clock close_body (guarded world_clock close_body next)
          (set_deadline d req))
        (IsAccounted false c held) (times c held false) (drop-IsAccounted c held)
        (guarded-answers next answers (set_deadline d req)) w h)
    where
      go :
          (late : Bool)
          → IsAccounted false c held (timed next d req w).0.0 (timed next d req w).1
          → let o : Reply × World =
              if late
              then ((none, (timed next d req w).0.1), (timed next d req w).1)
              else ((timed next d req w).0, (timed next d req w).1) in
            IsAccounted false c held o.0.0 o.1
      go true k = drop-IsAccounted c held (timed next d req w).0.0 (timed next d req w).1 k
      go false k = k
