-- ===== src/Http/Client/Accounts/Fanout.antt =====
-- rhttp/client.go: how often the handler is called for the requests of a client, hedged or not.
use resili.Prelude.{
  ℕ, ◌+◌, ◌*◌, ◌≤◌, inl, ℤ, Option, none, some, List, [], ◌∷◌, arith, length, pos, ltb_ℤ,
  if◌then◌else◌, Bool-cases, inr, ap,
}
use resili.Retry.Execute.{rounds}
use resili.Http.Middleware.{Handler, Request}
use resili.Http.Hedge.{attempt}
use resili.Limiter.State.Rtt.{mul_mono}
use resili.Http.Client.{wrap_attempts, wrap_hedge_with_retry_limit, new_client}
use resili.Http.Client.Accounts.{World, Retrying, serve}
use resili.Http.Client.Accounts.Requests.{Choice, after_requests, retry_of}
use resili.Http.Client.Accounts.Hedging.{Hedging, attempts, hedge_of, hedged_pipeline, Raced-few}
use resili.Http.Client.Accounts.Load.{
  IsLeft, Costs, serve-Costs, retry-Costs, outer-Costs, requests-Costs,
}
use resili.Http.Client.Accounts.Load as Load

module _ {Q X : Type 0} (with_context : X → Q → Q) where
  attempts-Costs :
      (n : ℕ) (next : Handler Q World)
      → Costs n next
      → (req : Request Q) (ctxs : List X) (w : World)
      → (attempts with_context next req ctxs w).1.served
        ≤ w.served + length (attempts with_context next req ctxs w).0 * n
  unfolding attempts
  attempts-Costs n next costs req [] w = omega arith
  attempts-Costs n next costs req (ctx ∷ ctxs) w =
      let w₁ = (next (attempt with_context ctx req) w).1 in
      grind (
        arith,
        costs (w.served + n) (attempt with_context ctx req) w (omega arith),
        attempts-Costs n next costs req ctxs w₁,
      )

  hedge-Costs :
      (h : Hedging with_context) (n : ℕ) (next : Handler Q World)
      → Costs n next
      → Costs (rounds h.max_attempts * n) (h.middleware next)
  hedge-Costs h n next costs most req w left =
      let r = h.races next req w in
      grind (
        arith,
        left,
        ap (λ (v : World). v.served) r.after,
        attempts-Costs n next costs req r.ctxs w,
        mul_mono (length (attempts with_context next req r.ctxs w).0) (rounds h.max_attempts) n
            (Raced-few with_context h next req w),
      )

  -- How often the handler is asked for a request at most: the attempts of the retry policy times
  -- those of the hedge middleware, without the latter if both are there and the limit is not
  -- positive.
  abbrev pub fanout : Option (Hedging with_context) → Option Retrying → ℤ → ℕ
  fanout none retry limit = Load.attempts retry
  fanout (some h) none limit = rounds h.max_attempts
  fanout (some h) (some policy) limit =
      Load.attempts (some policy) * (if ltb_ℤ (pos 0) limit then rounds h.max_attempts else 1)

  attempts_of-Costs :
      (hedge : Option (Hedging with_context)) (retry : Option Retrying) (limit : ℤ)
      → Costs
          (fanout hedge retry limit)
          (wrap_attempts (hedge_of with_context hedge) (retry_of retry) limit serve)
  unfolding wrap_hedge_with_retry_limit
  attempts_of-Costs none none limit = serve-Costs 0
  attempts_of-Costs none (some policy) limit = λ most req w left.
      retry-Costs 1 serve (serve-Costs 0) (some policy) most req w (omega (arith, left))
  attempts_of-Costs (some h) none limit =
      λ most req w left. hedge-Costs h 1 serve (serve-Costs 0) most req w (omega (arith, left))
  attempts_of-Costs (some h) (some policy) limit = elim (Bool-cases (ltb_ℤ (pos 0) limit)) [
    | inl both ↦ rw both (
        retry-Costs (rounds h.max_attempts) (h.middleware serve)
          (λ most req w left.
            hedge-Costs h 1 serve (serve-Costs 0) most req w (omega (arith, left)))
          (some policy))
    | inr alone ↦ rw alone (retry-Costs 1 serve (serve-Costs 0) (some policy))
  ]

  -- A new client with any of the middlewares, the retry one with a policy or none, which has a
  -- budget or none, calls its handler for each request at most as often as the retry policy allows
  -- attempts, once without one, times the attempts of the hedge middleware, if there is one. If
  -- both are there and RetryHedgeFanoutLimit is not positive, there is no hedging. The other
  -- middlewares may decide, the server answer and the clock show what they like.
  pub client_load :
      (choice : Choice) (hedge : Option (Hedging with_context)) (limit : ℤ) (qs : List (Option Q))
      (w : World)
      → (after_requests
          (new_client (hedged_pipeline with_context choice hedge limit))
          qs
          w).1.served
        ≤ w.served + fanout hedge choice.retry limit * length qs
  unfolding new_client
  client_load choice hedge limit qs w =
      requests-Costs (fanout hedge choice.retry limit) _
        (outer-Costs (fanout hedge choice.retry limit) choice _
          (attempts_of-Costs hedge choice.retry limit))
        qs w
