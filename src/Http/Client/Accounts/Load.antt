-- ===== src/Http/Client/Accounts/Load.antt =====
-- rhttp/client.go: how often a middleware calls the next handler.
use resili.Prelude.{
  ℕ, suc, ◌+◌, ◌*◌, ◌≤◌, ◌≡◌, refl, inl, Bool, true, false, ℤ, Option, none, some, List, [], ◌∷◌,
  arith, length, pos, if◌then◌else◌,
}
use resili.Errors.{Err}
use resili.Environment.Keeps.{ClockKeeps, LeadsTo}
use resili.Limiter.Execute.Keeps as LimiterKeeps
use resili.Breaker.Execute.Keeps as BreakerKeeps
use resili.Timeout.Keeps as TimeoutKeeps
use resili.Retry.Execute.{rounds, settings}
use resili.Retry.Execute.Keeps as RetryKeeps
use resili.Http.Classifier.{Response}
use resili.Http.Middleware.{
  Handler, Request, Reply, action_of, retry_action_of, discard_attempt, guarded, guard_reply,
  set_deadline, is_timeout, do_request, new_limiter_middleware, new_breaker_middleware,
  new_classifier_middleware, new_timeout_middleware, new_retry_middleware,
}
use resili.Http.Client.{wrap}
use resili.Http.Client.Accounts.{
  World, Retrying, nil_policy, by_policy, policy_of, budget-keeps, world_clock, limiter_cell,
  cb_cell, close_body, serve, opened, timed,
}
use resili.Http.Client.Accounts.Requests.{
  Choice, after_requests, limiter_of, breaker_of, classifier_of, timeout_of, retry_of,
}

-- With `k` more calls of the handler there are `most` at most.
abbrev pub IsLeft : ℕ → ℕ → World → Type 0
IsLeft most k w = w.served + k ≤ most

-- A request costs at most `n` calls of the handler.
abbrev pub Costs : {Q : Type 0} → ℕ → Handler Q World → Type 0
Costs {Q} n next =
    (most : ℕ) (req : Request Q) → LeadsTo (next req) (IsLeft most n) (λ _. IsLeft most 0)

times : (most k : ℕ) → ClockKeeps world_clock (IsLeft most k)
times most k = record { now = λ w h. h; sleep = λ d w h. h }

enter : (most n : ℕ) (w : World) → IsLeft most n w → IsLeft most 0 w
enter most n w h = omega arith

discard-IsLeft :
    (most k : ℕ) (resp : Option Response) (w : World)
    → IsLeft most k w
    → IsLeft most k (discard_attempt world_clock close_body resp w)
discard-IsLeft most k resp w h = ground arith

guard-IsLeft :
    (most : ℕ) (deadline : ℤ) (resp : Option Response) (err : Option Err) (w : World)
    → IsLeft most 0 w
    → IsLeft most 0 (guard_reply world_clock close_body deadline resp err w).1
guard-IsLeft most deadline resp err w h = ground arith

opened-IsLeft :
    (most k : ℕ) (answer : Option ℤ × Option Err) (w : World)
    → IsLeft most k w
    → IsLeft most k (opened answer w).1
opened-IsLeft most k (none, err) w h = h
opened-IsLeft most k (some code, err) w h = h

-- The attempts that the retry policy allows.
abbrev pub attempts : Option Retrying → ℕ
attempts none = 1
attempts (some nil_policy) = 1
attempts (some (by_policy budgeted policy)) = rounds policy.max_attempts

module _ {Q : Type 0} where
  pub serve-Costs :
      (k most : ℕ) (req : Request Q)
      → LeadsTo (serve req) (IsLeft most (suc k)) (λ _. IsLeft most k)
  serve-Costs k most req w h =
      opened-IsLeft most k (w.replies w.served) (record w { served = suc w.served }) (omega arith)

  module _ (n : ℕ) (next : Handler Q World) (costs : Costs n next) where
    limiter-Costs : (b : Bool) → Costs n (wrap (limiter_of b) next)
    unfolding new_limiter_middleware
    limiter-Costs true most req =
        LimiterKeeps.execute_with_result-LeadsTo world_clock none limiter_cell
          (action_of world_clock close_body next req) (IsLeft most n) (λ _. IsLeft most 0)
          (enter most n) (λ _ _ h. h) (λ _. times most 0) (λ _ _ _ h. h) (costs most req)
    limiter-Costs false most req = costs most req

    breaker-Costs : (b : Bool) → Costs n (wrap (breaker_of b) next)
    unfolding new_breaker_middleware
    breaker-Costs true most req =
        BreakerKeeps.execute_with_result-LeadsTo world_clock none cb_cell
          (action_of world_clock close_body next req) (IsLeft most n) (λ _. IsLeft most 0)
          (enter most n) (times most n) (λ _ _ h. h) (λ _. times most 0) (λ _ _ _ h. h)
          (costs most req)
    breaker-Costs false most req = costs most req

    classifier-Costs : (b : Bool) → Costs n (wrap (classifier_of b) next)
    unfolding new_classifier_middleware
    classifier-Costs true most req w h = costs most req w h
    classifier-Costs false most req w h = costs most req w h

    guarded-Costs : Costs n (guarded world_clock close_body next)
    guarded-Costs most req w h =
        let ((resp, err), w₁) = next req w in
        guard-IsLeft most req.request_deadline resp err w₁ (costs most req w h)

    timeout-Costs : (d : Option ℤ) → Costs n (wrap (timeout_of d) next)
    unfolding new_timeout_middleware
    timeout-Costs none most req w h = costs most req w h
    timeout-Costs (some d) most req w h = go (is_timeout (timed next d req w).0.1) (
        TimeoutKeeps.execute_with_result-LeadsTo world_clock none d
          (action_of world_clock close_body (guarded world_clock close_body next)
            (set_deadline d req))
          (IsLeft most n) (λ _. IsLeft most 0) (enter most n) (λ _. times most 0) (λ _ _ h. h)
          (guarded-Costs most (set_deadline d req)) w h)
      where
        go :
            (late : Bool)
            → IsLeft most 0 (timed next d req w).1
            → let o : Reply × World =
                if late
                then ((none, (timed next d req w).0.1), (timed next d req w).1)
                else ((timed next d req w).0, (timed next d req w).1) in
              IsLeft most 0 o.1
        go true k = k
        go false k = k

    -- The same, while `k` more calls are to come.
    Costs-more :
        (k most : ℕ) (req : Request Q)
        → LeadsTo (next req) (IsLeft most (n + k)) (λ _. IsLeft most k)
    Costs-more k most req w h = omega (arith, costs (w.served + n) req w (omega arith))

    allowed :
        (retrying : Retrying) (req : Request Q)
        → (settings world_clock none
            (retry_action_of world_clock close_body next req)
            (policy_of retrying)).attempts
          ≡ attempts (some retrying)
    unfolding settings
    allowed nil_policy req = refl
    allowed (by_policy true policy) req = refl
    allowed (by_policy false policy) req = refl

    pub retry-Costs :
        (retry : Option Retrying) → Costs (attempts retry * n) (wrap (retry_of retry) next)
    unfolding new_retry_middleware
    retry-Costs none most req = λ w h. costs most req w (omega arith)
    retry-Costs (some retrying) most req = λ w h.
        let done =
          RetryKeeps.execute_with_result-LeadsTo world_clock none
            (retry_action_of world_clock close_body next req) (λ k _. IsLeft most (k * n))
            (λ k _. times most (k * n))
            (λ k v left. Costs-more (k * n) most req v (grind (arith, left)))
            (λ k. discard-IsLeft most (k * n)) (λ k _ v left. grind (arith, left))
            (policy_of retrying)
            (λ k _. budget-keeps retrying (IsLeft most (k * n)) (λ _ _ left. left)) w
            (rw (allowed retrying req) h) in
        omega (arith, done)

  -- The protections around the attempts.
  pub outer-Costs :
      (n : ℕ) (choice : Choice) (inner : Handler Q World)
      → Costs n inner
      → Costs n (
          wrap (limiter_of choice.limited) (
            wrap
              (classifier_of choice.classified)
              (wrap (breaker_of choice.broken) (wrap (timeout_of choice.timeout) inner))))
  outer-Costs n choice inner costs =
      limiter-Costs n _
        (classifier-Costs n _
          (breaker-Costs n _ (timeout-Costs n _ costs choice.timeout) choice.broken)
          choice.classified)
        choice.limited

  request-Costs :
      (n : ℕ) (chain : Handler Q World)
      → Costs n chain
      → (q : Option Q) (w : World)
      → (do_request world_clock close_body chain q w).1.served ≤ w.served + n
  unfolding do_request
  request-Costs n chain costs q w = omega (
    arith,
    costs (w.served + n)
        (record { req = q; request_deadline = pos 0; try_deadline = pos 0; now = w.clock w.reads })
        (record w { reads = suc w.reads }) (omega arith),
  )

  pub requests-Costs :
      (n : ℕ) (chain : Handler Q World)
      → Costs n chain
      → (qs : List (Option Q)) (w : World)
      → (after_requests (inl chain) qs w).1.served ≤ w.served + n * length qs
  requests-Costs n chain costs [] w = omega arith
  requests-Costs n chain costs (q ∷ qs) w = grind (
    arith,
    request-Costs n chain costs q w,
    requests-Costs n chain costs qs (do_request world_clock close_body chain q w).1,
  )
