-- ===== src/Examples/Http/Refused.antt =====
-- examples/http/http.go: the whole program, when the server refuses with status 429.
use resili.Prelude.{
  ℕ, suc, ◌+◌, ◌^◌, ◌≤◌, ◌<◌, ◌≡◌, refl, true, false, pos, Option, none, some, inl, arith,
  add64_pos,
}
use resili.Errors.{Err, rate_limited}
use resili.Retry.Execute.{turn, after_attempt, return, loop}
use resili.Retry.Budget.{Float64}
use resili.Examples.Http.Attempts.{in_time, action, limits}
use resili.Http.Client.{new_client, chain_over, wrap_hedge_with_retry_limit}
use resili.Limiter.State.{done}
use resili.Http.Classifier.{Response}
use resili.Http.Middleware.{Handler, Middleware, do_request, new_retry_middleware}
use resili.Examples.Http.{
  World, world_clock, close_body, serve, policy, pipeline, request_failed, run,
}
use resili.Examples.Http.Layers.{
  timed, timeout_passes, breaker_passes, classifier_marks, limiter_passes, budget_half, entered,
  ready,
}

module _ {Q : Type 0} (hedge : Middleware Q World) (q : Q) (w : World) (small : w.time < 2 ^ 61)
    (answer : w.replies w.served ≡ (some (pos 429), none))
    (quick : w.latency w.served ≤ 2_000_000_000) where
  abbrev inner : Handler Q World
  inner = new_retry_middleware world_clock close_body (some policy) serve

  abbrev refusal : Response
  refusal = record { status_code = pos 429; body = some w.made }

  -- After the only attempt.
  abbrev asked_once : World
  asked_once = record (entered w) {
    time = w.time + w.latency w.served;
    served = suc w.served;
    made = suc w.made;
  }

  turn_declines :
      turn world_clock none
        (action (some q) (w.time + 10_000_000_000) (pos w.time) (omega arith))
        (limits (some q) (w.time + 10_000_000_000) (pos w.time) (omega arith))
        0
        (pos w.time)
        none
        (entered w)
      ≡ return (some refusal, none) asked_once
  unfolding turn serve resili.Retry.Execute.settings after_attempt resili.Http.Classifier.is_success
      resili.Http.Classifier.should_retry_default
  turn_declines =
      rw
        (
          in_time (w.time + 10_000_000_000) w.time (omega arith),
          add64_pos w.time 2_000_000_000 (omega arith),
          answer,
          in_time (w.time + 2_000_000_000) (w.time + w.latency w.served) (omega arith),
        )
        refl

  inner_declines : inner (timed (some q) w.time) (entered w) ≡ ((some refusal, none), asked_once)
  unfolding new_retry_middleware resili.Retry.Execute.execute_with_result loop
  inner_declines = rw (turn_declines, loop)

  client_refuses :
      do_request world_clock close_body (chain_over (pipeline hedge) serve) (some q) (ready w) ≡ (
        (some refusal, some rate_limited),
        record asked_once {
          limiter = done (pos w.time) (pos asked_once.time) false asked_once.limiter;
        },
      )
  unfolding do_request wrap_hedge_with_retry_limit
  client_refuses =
      limiter_passes (some q) w.time _ (some refusal, some rate_limited) (ready w) asked_once
        (classifier_marks (some q) w.time _ refusal _ asked_once refl (
          breaker_passes (some q) w.time _ refusal _ asked_once refl
            (timeout_passes (some q) w.time inner refusal (entered w) asked_once small
              inner_declines (omega arith))
            refl))

-- The program with a server that answers its request with status 429, within 2 seconds: the client
-- asks once, and the program ends with ErrRateLimited and never closes the body that came with the error.
pub run_leaks :
    {Q : Type 0} (read_all : ℕ → Option Err × ℕ) (fl : Float64) (half : fl.Float)
    (hedge : Middleware Q World) (q : Q) (w : World)
    → fl.is_pos half ≡ true
    → fl.at_most_one half ≡ true
    → fl.per_mille half ≡ pos 500
    → w.time < 2 ^ 61
    → w.latency w.served ≤ 2_000_000_000
    → w.replies w.served ≡ (some (pos 429), none)
    → let (ending, w') = run read_all fl half hedge (inl q) w in
      (ending ≡ request_failed rate_limited)
      × (w'.served ≡ suc w.served)
      × (w'.made ≡ suc w.made)
      × (w'.closed ≡ w.closed)
unfolding run new_client
run_leaks read_all fl half hedge q w positive most is_half small quick answer =
    rw (budget_half fl half positive most is_half, client_refuses hedge q w small answer quick)
      (refl, refl, refl, refl)
