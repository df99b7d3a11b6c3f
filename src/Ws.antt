-- ===== src/Ws.antt =====
-- rws/handler.go, limiter.go, breaker.go, and the middleware of retry.go: the WebSocket adapters. A
-- connection is a number, which *websocket.Conn points to.
pub mod Retryable
pub mod Timeout
pub mod Persistent
pub mod Dial
pub mod Client
mod Tests
use resili.Prelude.{ℕ, ◌⊎◌, Bool, ℤ, pos, Option, none, some, eq_ℤ, if◌then◌else◌}
use resili.Errors.{Err, Outcome}
use resili.Environment.{Clock, Cell, Action}
use resili.Limiter.State.{Limiter}
use resili.Limiter.Execute as LimiterExecute
use resili.Breaker.State.{CircuitBreaker}
use resili.Breaker.Execute as BreakerExecute
use resili.Retry.Policy.{RetryPolicy}
use resili.Retry.Execute as RetryExecute
use resili.Retry.Execute.{RetryAction}
use resili.Ws.Retryable.{CloseErrors, should_retry_default, is_success, final_err}

-- `D` stands for []byte.
pub record Response (D : Type 0) : Type 0 where
  pub payload : D
  pub message_type : ℤ

pub record TimeoutConfig : Type 0 where
  pub dial : ℤ
  pub read : ℤ
  pub session : ℤ

-- `H` stands for http.Header. The URL is `none` where the text is empty.
pub record Request (D H : Type 0) : Type 0 where
  pub headers : H
  pub conn : Option ℕ
  pub url : Option ℕ
  pub payload : Option D
  pub timeout_config : TimeoutConfig
  pub message_type : ℤ
  pub now : ℤ
  pub request_deadline : ℤ

abbrev pub Reply : Type 0 → Type 0
Reply D = Outcome (Option (Response D))

abbrev pub Handler : Type 0 → Type 0 → Type 0 → Type 0
Handler D H W = Request D H → W → Reply D × W

abbrev pub Middleware : Type 0 → Type 0 → Type 0 → Type 0
Middleware D H W = Handler D H W → Handler D H W

-- What gorilla/websocket does with a connection. A deadline of `none` is the zero time: no deadline.
pub record Sockets (D W : Type 0) : Type 0 where
  pub set_read_deadline : ℕ → Option ℤ → W → W
  pub set_write_deadline : ℕ → Option ℤ → W → W
  pub write_message : ℕ → ℤ → D → W → Option Err × W
  pub read_message : ℕ → W → (Response D ⊎ Err) × W
  pub close : ℕ → W → W

module _ {D H W : Type 0} (clock : Clock W) where
  abbrev pub action_of : Handler D H W → Request D H → Action W (Option (Response D))
  action_of h req = record {
    execute = h req;
    now = req.now;
    request_deadline = req.request_deadline;
  }

  unfoldable pub new_limiter_middleware : Cell W Limiter → Middleware D H W
  new_limiter_middleware l next req =
      LimiterExecute.execute_with_result clock none l (action_of next req)

  unfoldable pub new_breaker_middleware : Cell W CircuitBreaker → Middleware D H W
  new_breaker_middleware cb next req =
      BreakerExecute.execute_with_result clock none cb (action_of next req)

  -- The action has no DiscardAttempt.
  abbrev pub retry_action_of :
      CloseErrors → Handler D H W → Request D H → RetryAction W (Option (Response D))
  retry_action_of errors h req = record {
    action = action_of h req;
    is_success = λ _ err. is_success err;
    should_retry_default = λ _ err. should_retry_default errors err;
    final_err = final_err;
    discard_attempt = λ _ w. w;
  }

  unfoldable pub new_retry_middleware :
      CloseErrors → Option (RetryPolicy W (Option (Response D))) → Middleware D H W
  new_retry_middleware errors policy next req =
      RetryExecute.execute_with_result clock none policy (retry_action_of errors next req)

-- Both ends of a read and write deadline, and of its removal by the deferred calls.
module _ {D W : Type 0} (sockets : Sockets D W) where
  abbrev pub set_deadlines : ℕ → ℤ → W → W
  set_deadlines c deadline w =
      sockets.set_write_deadline c (some deadline) (sockets.set_read_deadline c (some deadline) w)

  abbrev pub clear_deadlines : ℕ → W → W
  clear_deadlines c w = sockets.set_read_deadline c none (sockets.set_write_deadline c none w)
