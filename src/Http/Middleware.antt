-- ===== src/Http/Middleware.antt =====
-- rhttp/handler.go, limiter.go, breaker.go, timeout.go, classifier.go and retry.go: the middlewares,
-- over a world that holds the limiters, breakers and budgets, the clock and the response bodies.
pub mod Bodies
use resili.Prelude.{ℕ, Bool, false, ℤ, pos, Option, none, some, eq_ℤ, ltb_ℤ, add64, if◌then◌else◌}
use resili.Errors.{Err, timeout, Outcome, is_target}
use resili.Environment.{Clock, Cell, Action}
use resili.Limiter.State.{Limiter}
use resili.Limiter.Execute as LimiterExecute
use resili.Breaker.State.{CircuitBreaker}
use resili.Breaker.Execute as BreakerExecute
use resili.Timeout as Timeout
use resili.Retry.Policy.{RetryPolicy}
use resili.Retry.Execute as RetryExecute
use resili.Retry.Execute.{RetryAction}
use resili.Http.Classifier.{Response, classify_error, should_retry_default, is_success, final_err}

-- `Q` stands for *http.Request.
pub record Request (Q : Type 0) : Type 0 where
  pub req : Option Q
  pub request_deadline : ℤ
  pub try_deadline : ℤ
  pub now : ℤ

abbrev pub Reply : Type 0
Reply = Outcome (Option Response)

abbrev pub Handler : Type 0 → Type 0 → Type 0
Handler Q W = Request Q → W → Reply × W

abbrev pub Middleware : Type 0 → Type 0 → Type 0
Middleware Q W = Handler Q W → Handler Q W

-- The deadline that the request gets, if it has none.
abbrev pub set_deadline : {Q : Type 0} → ℤ → Request Q → Request Q
set_deadline d req =
    if eq_ℤ req.request_deadline (pos 0)
    then record req { request_deadline = add64 req.now d }
    else req

-- errors.Is(err, timeout.ErrTimeout)
abbrev pub is_timeout : Option Err → Bool
is_timeout none = false
is_timeout (some err) = is_target timeout err

-- `close_body` is what net/http does when a body is closed.
module _ {W : Type 0} (clock : Clock W) (close_body : ℕ → W → W) where
  -- if resp != nil && resp.Body != nil { resp.Body.Close() }
  abbrev pub discard_attempt : Option Response → W → W
  discard_attempt none w = w
  discard_attempt (some resp) w = elim resp.body [ none ↦ w | some b ↦ close_body b w ]

  -- What the timeout middleware makes of the reply of the next handler. The clock is read only for a
  -- response without an error, and a deadline.
  abbrev pub guard_reply : ℤ → Option Response → Option Err → W → Reply × W
  guard_reply deadline (some resp) none w =
      if ltb_ℤ (pos 0) deadline
      then (let (now, w₁) = clock.now w in
          if ltb_ℤ deadline now
          then ((none, some timeout), discard_attempt (some resp) w₁)
          else ((some resp, none), w₁))
      else ((some resp, none), w)
  guard_reply deadline resp err w = ((resp, err), w)

module _ {Q W : Type 0} (clock : Clock W) (close_body : ℕ → W → W) where
  abbrev pub action_of : Handler Q W → Request Q → Action W (Option Response)
  action_of h req = record {
    execute = h req;
    now = req.now;
    request_deadline = req.request_deadline;
  }

  -- Client.Do, for the chain that NewClient has built.
  unfoldable pub do_request : Handler Q W → Option Q → W → Reply × W
  do_request chain req w =
      let (now, w₁) = clock.now w in
      chain (record { req = req; request_deadline = pos 0; try_deadline = pos 0; now = now }) w₁

  unfoldable pub new_limiter_middleware : Cell W Limiter → Middleware Q W
  new_limiter_middleware l next req =
      LimiterExecute.execute_with_result clock none l (action_of next req)

  unfoldable pub new_breaker_middleware : Cell W CircuitBreaker → Middleware Q W
  new_breaker_middleware cb next req =
      BreakerExecute.execute_with_result clock none cb (action_of next req)

  unfoldable pub new_classifier_middleware : Middleware Q W
  unfolding classify_error
  new_classifier_middleware next req w =
      let ((resp, err), w₁) = next req w in ((resp, classify_error resp err), w₁)

  abbrev pub guarded : Handler Q W → Handler Q W
  guarded next r w =
      let ((resp, err), w₁) = next r w in
      guard_reply clock close_body r.request_deadline resp err w₁

  unfoldable pub new_timeout_middleware : ℤ → Middleware Q W
  new_timeout_middleware d next req w =
      let ((resp, err), w₁) =
        Timeout.execute_with_result clock none d (action_of (guarded next) (set_deadline d req))
          w in
      if is_timeout err then ((none, err), w₁) else ((resp, err), w₁)

  abbrev pub retry_action_of : Handler Q W → Request Q → RetryAction W (Option Response)
  retry_action_of h req = record {
    action = action_of h req;
    is_success = is_success;
    should_retry_default = should_retry_default;
    final_err = final_err;
    discard_attempt = discard_attempt clock close_body;
  }

  unfoldable pub new_retry_middleware : Option (RetryPolicy W (Option Response)) → Middleware Q W
  new_retry_middleware policy next req =
      RetryExecute.execute_with_result clock none policy (retry_action_of next req)
