-- ===== src/Http/Middleware/Bodies.antt =====
-- rhttp/timeout.go: what becomes of the body of a response that comes around the deadline.
use resili.Prelude.{ℕ, ◌≡◌, refl, true, ℤ, pos, none, some, arith, ◌≤ℤ◌, ◌<ℤ◌}
use resili.Errors.{Err, timeout, Err-discrete, is_target, equal}
use resili.Environment.{Clock}
use resili.Timeout as Timeout
use resili.Http.Classifier.{Response}
use resili.Http.Middleware.{Handler, Request, new_timeout_middleware, set_deadline, discard_attempt}

equal_self : (a : Err) (d : Dec (a ≡ a)) → equal d ≡ true
equal_self a (yes _) = refl
equal_self a (no differ) = absurd (differ refl)

pub timeout_is_target : is_target timeout timeout ≡ true
timeout_is_target = equal_self timeout (Err-discrete timeout timeout)

module _ {Q W : Type 0} (clock : Clock W) (close_body : ℕ → W → W) (d : ℤ) (next : Handler Q W)
    (req : Request Q) (w w₁ : W) (resp : Response)
    (replied : next (set_deadline d req) w ≡ ((some resp, none), w₁))
    (positive : pos 0 <ℤ (set_deadline d req).request_deadline)
    (early : req.now ≤ℤ (set_deadline d req).request_deadline) where
  -- A response without an error that is late when the middleware looks at the clock: the caller gets
  -- ErrTimeout and no response, and the body is closed, once.
  late_closes :
      (set_deadline d req).request_deadline <ℤ (clock.now w₁).0
      → let w₂ = discard_attempt clock close_body (some resp) (clock.now w₁).1 in
        new_timeout_middleware clock close_body d next req w
        ≡ ((none, some timeout), (clock.now w₂).1)
  unfolding new_timeout_middleware Timeout.execute_with_result
  late_closes late = rw replied (ground (arith, timeout_is_target))

  -- A response without an error that is in time when the middleware looks at the clock, and late when
  -- the timeout around it looks again: the caller gets ErrTimeout and no response, and nothing closes
  -- the body, for the world is as the two readings of the clock left it.
  pub gap_leaks :
      (clock.now w₁).0 ≤ℤ (set_deadline d req).request_deadline
      → (set_deadline d req).request_deadline <ℤ (clock.now (clock.now w₁).1).0
      → new_timeout_middleware clock close_body d next req w
        ≡ ((none, some timeout), (clock.now (clock.now w₁).1).1)
  unfolding new_timeout_middleware Timeout.execute_with_result
  gap_leaks first second = rw replied (ground (arith, timeout_is_target))

  -- A response without an error that is in time at both readings reaches the caller as it is.
  pub on_time_passes :
      (clock.now w₁).0 ≤ℤ (set_deadline d req).request_deadline
      → (clock.now (clock.now w₁).1).0 ≤ℤ (set_deadline d req).request_deadline
      → new_timeout_middleware clock close_body d next req w
        ≡ ((some resp, none), (clock.now (clock.now w₁).1).1)
  unfolding new_timeout_middleware Timeout.execute_with_result
  on_time_passes first second = rw replied (ground arith)
