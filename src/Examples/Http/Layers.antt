-- ===== src/Examples/Http/Layers.antt =====
-- examples/http/http.go: the first request through each of the program's middlewares.
use resili.Prelude.{
  ℕ, ◌+◌, ◌^◌, ◌≤◌, ◌<◌, ◌≡◌, refl, true, false, pos, Option, none, some, ◌<ℤ◌, arith, add64_pos,
  ◌-ℤ◌, int64,
}
use resili.Retry.Budget.{Float64, new_budget, record_success}
use resili.Examples.Http.Attempts.{success_budget}
use resili.Breaker.State.{
  state_closed, is_failure, over_threshold, apply_options, CircuitBreaker, count_request,
  count_failure, new_breaker,
}
use resili.Errors.{Err, rate_limited}
use resili.Limiter.Execute.{is_nil}
use resili.Limiter.Options as Limits
use resili.Limiter.Options.{guard_options}
use resili.Limiter.State.{Limiter, new_limiter, acquire, done}
use resili.Http.Classifier.{Response, classify_error, classify_status}
use resili.Http.Middleware.{
  Handler, Request, Reply, new_limiter_middleware, new_breaker_middleware, new_timeout_middleware,
  new_classifier_middleware,
}
use resili.Examples.Http.{
  World, world_clock, limiter_cell, cb_cell, close_body, breaker_options, limiter_options,
  successes, budget_of,
}

-- The breaker as it is while its first request runs, and the limiter.
abbrev pub counting : ℕ → CircuitBreaker
counting t = count_request (pos t) (new_breaker breaker_options (pos t) (pos t))

abbrev pub holding : ℕ → Limiter
holding t = (acquire (pos t) (new_limiter limiter_options)).0

counting_calm :
    (t : ℕ)
    → ((new_breaker breaker_options (pos t) (pos t)).state ≡ state_closed)
      × (is_failure (counting t) none ≡ false)
      × (over_threshold (counting t) ((counting t).windows (counting t).window) ≡ false)
unfolding new_breaker apply_options count_request over_threshold ◌-ℤ◌ int64
counting_calm t = (ground arith, ground arith, ground arith)

counting_failed :
    (t : ℕ) (err : Err)
    → ((new_breaker breaker_options (pos t) (pos t)).state ≡ state_closed)
      × (is_failure (counting t) (some err) ≡ true)
      × (over_threshold
            (count_failure (counting t).window (counting t))
            ((count_failure (counting t).window (counting t)).windows (counting t).window)
          ≡ false)
unfolding new_breaker apply_options count_request count_failure over_threshold ◌-ℤ◌ int64
counting_failed t err = (ground arith, ground arith, ground arith)

module _ {Q : Type 0} (q : Option Q) (t : ℕ) where
  -- The request as Client.Do makes it at the time `t`, and with the deadline of the timeout.
  abbrev pub asked : Request Q
  asked = record { req = q; request_deadline = pos 0; try_deadline = pos 0; now = pos t }

  abbrev pub timed : Request Q
  timed = record asked { request_deadline = pos (t + 10_000_000_000) }

  pub timeout_passes :
      (next : Handler Q World) (resp : Response) (w w' : World)
      → t < 2 ^ 61
      → next timed w ≡ ((some resp, none), w')
      → w'.time ≤ t + 10_000_000_000
      → new_timeout_middleware world_clock close_body (pos 10_000_000_000) next asked w
        ≡ ((some resp, none), w')
  unfolding new_timeout_middleware resili.Timeout.execute_with_result
  timeout_passes next resp w w' small e early =
      rw (add64_pos t 10_000_000_000 (omega arith), e) (ground arith)

  pub timeout_fails :
      (next : Handler Q World) (err : Err) (w w' : World)
      → t < 2 ^ 61
      → next timed w ≡ ((none, some err), w')
      → w'.time ≤ t + 10_000_000_000
      → new_timeout_middleware world_clock close_body (pos 10_000_000_000) next asked w
        ≡ ((none, some err), w')
  unfolding new_timeout_middleware resili.Timeout.execute_with_result
  timeout_fails next err w w' small e early =
      rw (add64_pos t 10_000_000_000 (omega arith), e) (ground arith)

  pub breaker_fails :
      (next : Handler Q World) (err : Err) (w w' : World)
      → w.cb ≡ new_breaker breaker_options (pos t) (pos t)
      → next asked (record w { cb = counting t }) ≡ ((none, some err), w')
      → w'.cb ≡ counting t
      → new_breaker_middleware world_clock close_body cb_cell next asked w
        ≡ ((none, some err), record w' { cb = count_failure (counting t).window (counting t) })
  unfolding new_breaker_middleware resili.Breaker.Execute.execute_with_result
  breaker_fails next err w w' fresh e same = ground (arith, fresh, e, same, counting_failed t err)

  pub breaker_passes :
      (next : Handler Q World) (resp : Response) (w w' : World)
      → w.cb ≡ new_breaker breaker_options (pos t) (pos t)
      → next asked (record w { cb = counting t }) ≡ ((some resp, none), w')
      → w'.cb ≡ counting t
      → new_breaker_middleware world_clock close_body cb_cell next asked w ≡ ((some resp, none), w')
  unfolding new_breaker_middleware resili.Breaker.Execute.execute_with_result
  breaker_passes next resp w w' fresh e same = ground (arith, fresh, e, same, counting_calm t)

  pub classifier_passes :
      (next : Handler Q World) (resp : Response) (w w' : World)
      → resp.status_code <ℤ pos 400
      → next asked w ≡ ((some resp, none), w')
      → new_classifier_middleware world_clock close_body next asked w ≡ ((some resp, none), w')
  unfolding new_classifier_middleware classify_error classify_status
  classifier_passes next resp w w' good e = rw e (ground arith)

  pub classifier_keeps :
      (next : Handler Q World) (err : Err) (w w' : World)
      → next asked w ≡ ((none, some err), w')
      → new_classifier_middleware world_clock close_body next asked w ≡ ((none, some err), w')
  unfolding new_classifier_middleware classify_error
  classifier_keeps next err w w' e = rw e refl

  pub classifier_marks :
      (next : Handler Q World) (resp : Response) (w w' : World)
      → resp.status_code ≡ pos 429
      → next asked w ≡ ((some resp, none), w')
      → new_classifier_middleware world_clock close_body next asked w
        ≡ ((some resp, some rate_limited), w')
  unfolding new_classifier_middleware classify_error classify_status
  classifier_marks next resp w w' many e = rw (e, many) refl

  pub limiter_passes :
      (next : Handler Q World) (reply : Reply) (w w' : World)
      → next asked (record w { limiter = holding t }) ≡ (reply, w')
      → new_limiter_middleware world_clock close_body limiter_cell next asked
          (record w { limiter = new_limiter limiter_options })
        ≡ (reply, record w' { limiter = done (pos t) (pos w'.time) (is_nil reply.1) w'.limiter })
  unfolding new_limiter_middleware resili.Limiter.Execute.execute_with_result
  limiter_passes next reply w w' e = rw (free, started, e) refl
    where
      free : (acquire (pos t) (new_limiter limiter_options)).2 ≡ true
      free = unfold acquire new_limiter Limits.apply_options guard_options in refl

      started : (acquire (pos t) (new_limiter limiter_options)).1 ≡ pos t
      started = unfold acquire new_limiter Limits.apply_options guard_options in refl

pub budget_half :
    (fl : Float64) (half : fl.Float)
    → fl.is_pos half ≡ true
    → fl.at_most_one half ≡ true
    → fl.per_mille half ≡ pos 500
    → budget_of fl half ≡ success_budget 0
unfolding successes new_budget record_success
budget_half fl half positive small e = rw (positive, small, e) refl

-- The world in which the retry loop starts, with a permit and a request counted.
abbrev pub entered : World → World
entered w = record w { limiter = holding w.time; cb = counting w.time; budget = success_budget 0 }

-- The world when the request is made.
abbrev pub ready : World → World
ready w = record w {
  limiter = new_limiter limiter_options;
  cb = new_breaker breaker_options (pos w.time) (pos w.time);
  budget = success_budget 0;
}
