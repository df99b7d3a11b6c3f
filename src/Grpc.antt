-- ===== src/Grpc.antt =====
-- rgrpc/handler.go, limiter.go, breaker.go and timeout.go, and the middleware of retry.go: the adapters
-- of the packages to unary gRPC calls.
pub mod Status
pub mod Client
pub mod Hedge
pub mod Retried
mod Tests
use resili.Prelude.{ℤ, pos, Option, none, some, eq_ℤ, add64, if◌then◌else◌}
use resili.Errors.{Err}
use resili.Environment.{Clock, Cell, Action}
use resili.Limiter.State.{Limiter}
use resili.Limiter.Execute as LimiterExecute
use resili.Breaker.State.{CircuitBreaker}
use resili.Breaker.Execute as BreakerExecute
use resili.Timeout as Timeout
use resili.Retry.Policy.{RetryPolicy}
use resili.Retry.Execute as RetryExecute
use resili.Retry.Execute.{RetryAction}
use resili.Grpc.Status.{should_retry_default, is_success, final_err}

-- What grpc does with a call: `X` stands for context.Context, `C` for the method, the message, the
-- reply, the connection and the options, which only the invoker reads.
abbrev pub Invoker : Type 0 → Type 0 → Type 0 → Type 0
Invoker X C W = X → C → W → Option Err × W

pub record Request (X C W : Type 0) : Type 0 where
  pub ctx : X
  pub call : C
  pub invoker : Invoker X C W
  pub request_deadline : ℤ
  pub try_deadline : ℤ
  pub now : ℤ

abbrev pub Handler : Type 0 → Type 0 → Type 0 → Type 0
Handler X C W = Request X C W → W → Option Err × W

abbrev pub Middleware : Type 0 → Type 0 → Type 0 → Type 0
Middleware X C W = Handler X C W → Handler X C W

module _ {X C W : Type 0} (clock : Clock W) where
  -- `Execute` returns the request itself as its response.
  abbrev pub action_of : Handler X C W → Request X C W → Action W (Request X C W)
  action_of h req = record {
    execute = λ w. let (err, w₁) = h req w in ((req, err), w₁);
    now = req.now;
    request_deadline = req.request_deadline;
  }

  abbrev pub set_deadline : ℤ → Request X C W → Request X C W
  set_deadline d req =
      if eq_ℤ req.request_deadline (pos 0)
      then record req { request_deadline = add64 req.now d }
      else req

  -- `zero` is the zero value of Request, which no caller sees.
  module _ (zero : Request X C W) where
    unfoldable pub new_limiter_middleware : Cell W Limiter → Middleware X C W
    new_limiter_middleware l next req = LimiterExecute.execute clock zero l (action_of next req)

    unfoldable pub new_breaker_middleware : Cell W CircuitBreaker → Middleware X C W
    new_breaker_middleware cb next req = BreakerExecute.execute clock zero cb (action_of next req)

    unfoldable pub new_timeout_middleware : ℤ → Middleware X C W
    new_timeout_middleware d next req =
        Timeout.execute clock zero d (action_of next (set_deadline d req))

    -- The action has no DiscardAttempt.
    abbrev pub retry_action_of :
        (Err → Option ℤ) → Handler X C W → Request X C W → RetryAction W (Request X C W)
    retry_action_of status_code h req = record {
      action = action_of h req;
      is_success = λ _ err. is_success err;
      should_retry_default = λ _ err. should_retry_default status_code err;
      final_err = final_err;
      discard_attempt = λ _ w. w;
    }

    unfoldable pub new_retry_middleware :
        (Err → Option ℤ) → Option (RetryPolicy W (Request X C W)) → Middleware X C W
    new_retry_middleware status_code policy next req =
        RetryExecute.execute clock zero policy (retry_action_of status_code next req)
