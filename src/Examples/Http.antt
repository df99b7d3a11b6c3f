-- ===== src/Examples/Http.antt =====
-- examples/http/http.go: a client with every middleware, and one request. What net/http and io do
-- is given: how each attempt is answered and how long it takes, and the reading of a body. The
-- control loop of the limiter is left out: until the request is done there is no sample, and it
-- adjusts nothing.
pub mod Attempts
pub mod Recovers
pub mod Exhausts
pub mod Layers
pub mod Succeeds
pub mod Refused
pub mod Fails
use resili.Prelude.{
  ℕ, zero, suc, ◌+◌, ◌≡◌, Bool, true, ℤ, pos, pos_part, List, [], ◌∷◌, Option, none, some, ◌⊎◌, inl,
  inr,
}
use resili.Errors.{Err}
use resili.Environment.{Clock, Cell}
use resili.Breaker.State.{
  CircuitBreaker, BreakerOption, new_breaker, with_timeout, with_window, with_min_requests,
  with_error_threshold,
}
use resili.Limiter.Options.{with_initial_limit, with_limits}
use resili.Limiter.Options as Limits
use resili.Limiter.State.{Limiter, new_limiter}
use resili.Limiter.State as Limiting
use resili.Retry.Budget.{Budget, Float64, new_budget, record_success}
use resili.Retry.Policy.{RetryPolicy, exponential_backoff}
use resili.Http.Classifier.{Response, should_retry_default}
use resili.Http.Middleware.{
  Handler, Middleware, Reply, do_request, new_limiter_middleware, new_breaker_middleware,
  new_classifier_middleware, new_timeout_middleware, new_retry_middleware,
}
use resili.Http.Client.{Pipeline, new_client}

-- The objects of the program, the time in nanoseconds, and the bodies that were opened and closed.
-- The attempt number `k` takes `latency k` nanoseconds and is answered with `replies k`. A sleep
-- that begins at the time `t` lasts `late t` nanoseconds longer than it is told to. Besides, time
-- passes only while the body is read.
pub record World : Type 0 where
  pub limiter : Limiter
  pub cb : CircuitBreaker
  pub budget : Budget
  pub time : ℕ
  pub latency : ℕ → ℕ
  pub late : ℕ → ℕ
  pub replies : ℕ → Option ℤ × Option Err
  pub served : ℕ
  pub made : ℕ
  pub closed : List ℕ

-- time.Sleep lasts at least as long as it is told to.
abbrev pub world_clock : Clock World
world_clock = record {
  now = λ w. (pos w.time, w);
  sleep = λ d w. record w { time = w.time + pos_part d + w.late w.time };
}

abbrev pub limiter_cell : Cell World Limiter
limiter_cell = record { get = λ w. w.limiter; put = λ l w. record w { limiter = l } }

abbrev pub cb_cell : Cell World CircuitBreaker
cb_cell = record { get = λ w. w.cb; put = λ cb w. record w { cb = cb } }

abbrev pub budget_cell : Cell World Budget
budget_cell = record { get = λ w. w.budget; put = λ b w. record w { budget = b } }

abbrev pub close_body : ℕ → World → World
close_body b w = record w { closed = b ∷ w.closed }

abbrev pub opened : Option ℤ × Option Err → World → Reply × World
opened (none, err) w = ((none, err), w)
opened (some code, err) w = (
  (some (record { status_code = code; body = some w.made }), err),
  record w { made = suc w.made },
)

-- http.DefaultClient.
unfoldable pub serve : {Q : Type 0} → Handler Q World
serve req w =
    opened (w.replies w.served)
      (record w { served = suc w.served; time = w.time + w.latency w.served })

-- The threshold 0.5 times 1024.
abbrev pub breaker_options : List BreakerOption
breaker_options =
    with_timeout (pos 5_000_000_000)
    ∷ with_window (pos 10_000_000_000)
    ∷ with_min_requests 5
    ∷ with_error_threshold (pos 512)
    ∷ []

abbrev pub limiter_options : List Limits.Option
limiter_options = with_initial_limit (pos 100) ∷ with_limits (pos 10) (pos 1000) ∷ []

unfoldable pub successes : ℕ → Budget → Budget
successes zero b = b
successes (suc n) b = successes n (record_success b)

-- `half` is the constant 0.5.
abbrev pub budget_of : (fl : Float64) → fl.Float → Budget
budget_of fl half = successes 50 (new_budget fl half)

abbrev pub policy : RetryPolicy World (Option Response)
policy = record {
  backoff = some exponential_backoff;
  should_retry = some should_retry_default;
  budget = some budget_cell;
  max_attempts = pos 3;
  try_deadline = pos 2_000_000_000;
}

module _ {Q : Type 0} where
  -- The hedge middleware is any. RetryHedgeFanoutLimit is not set.
  abbrev pub pipeline : Middleware Q World → Pipeline Q World
  pipeline hedge = record {
    http_client = some serve;
    http_handler = none;
    timeout = some (new_timeout_middleware world_clock close_body (pos 10_000_000_000));
    retry = some (new_retry_middleware world_clock close_body (some policy));
    hedge = some hedge;
    limiter = some (new_limiter_middleware world_clock close_body limiter_cell);
    circuit_breaker = some (new_breaker_middleware world_clock close_body cb_cell);
    classifier = some (new_classifier_middleware world_clock close_body);
    retry_hedge_fanout_limit = pos 0;
  }

-- How the program ends: with one of its errors, or with the status that it prints. It panics if
-- there is neither a response nor an error.
pub data Ending : Type 0 where
  creation_failed : (err : Err) → Ending
  invalid_request : (err : Err) → Ending
  request_failed : (err : Err) → Ending
  read_failed : (err : Err) → Ending
  completed : (status_code : ℤ) → Ending
  panicked : Ending

-- What `run` starts with, at the time `now`, before it builds the client.
abbrev pub prepared : (fl : Float64) → fl.Float → World → World
prepared fl half w = record w {
  cb = new_breaker breaker_options (pos w.time) (pos w.time);
  limiter = new_limiter limiter_options;
  budget = budget_of fl half;
}

-- l.Close() at the end.
abbrev pub close_limiter : World → World
close_limiter w = record w { limiter = Limiting.close w.limiter }

-- `read_all` tells of each body whether io.ReadAll fails, and how long it takes.
module _ (read_all : ℕ → Option Err × ℕ) where
  -- io.ReadAll(resp.Body), then resp.Body.Close().
  abbrev pub read_body : Response → World → Ending × World
  read_body resp w = elim resp.body [
    | none ↦ (panicked, w)
    | some b ↦
        let (err, taken) = read_all b in
        (
          elim err [ none ↦ completed resp.status_code | some e ↦ read_failed e ],
          close_body b (record w { time = w.time + taken }),
        )
  ]

  abbrev pub after_reply : Reply × World → Ending × World
  after_reply ((resp, some err), w) = (request_failed err, w)
  after_reply ((some resp, none), w) = read_body resp w
  after_reply ((none, none), w) = (panicked, w)

  -- The client and the request, if both can be made.
  abbrev pub ask : {Q : Type 0} → Handler Q World ⊎ Err → Q ⊎ Err → World → Ending × World
  ask (inr err) request w = (creation_failed err, w)
  ask (inl chain) (inr err) w = (invalid_request err, w)
  ask (inl chain) (inl q) w = after_reply (do_request world_clock close_body chain (some q) w)

  -- `request` is what http.NewRequest gives.
  unfoldable pub run :
      {Q : Type 0} (fl : Float64) → fl.Float → Middleware Q World → Q ⊎ Err → World → Ending × World
  run fl half hedge request w =
      let (ending, w₁) = ask (new_client (pipeline hedge)) request (prepared fl half w) in
      (ending, close_limiter w₁)
