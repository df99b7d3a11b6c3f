-- ===== src/Examples/Http/Succeeds.antt =====
-- examples/http/http.go: the whole program, when the server fails at first.
use resili.Prelude.{
  ℕ, suc, ◌+◌, ◌^◌, ◌≤◌, ◌<◌, ◌≡◌, refl, true, ℤ, pos, ◌∷◌, Option, none, some, inl, ◌<ℤ◌, arith,
  ap,
}
use resili.Errors.{Err}
use resili.Retry.Budget.{Float64}
use resili.Examples.Http.Attempts.{names, IsRetried}
use resili.Examples.Http.Recovers.{Recovers, loop-Recovers}
use resili.Http.Client.{new_client, chain_over, wrap_hedge_with_retry_limit}
use resili.Limiter.State.{done}
use resili.Http.Classifier.{Response}
use resili.Http.Middleware.{Handler, Middleware, Reply, do_request, new_retry_middleware}
use resili.Examples.Http.{World, world_clock, close_body, serve, policy, pipeline, completed, run}
use resili.Examples.Http.Layers.{
  timed, timeout_passes, breaker_passes, classifier_passes, limiter_passes, budget_half, entered,
  ready,
}

module _ {Q : Type 0} (hedge : Middleware Q World) (q : Q) (k : ℕ) (code : ℤ) (w : World)
    (small : w.time < 2 ^ 61) (few : k ≤ 2)
    (fails : (j : ℕ) → j < k → IsRetried (w.replies (w.served + j)))
    (answer : w.replies (w.served + k) ≡ (some code, none)) (good : code <ℤ pos 400)
    (quick : (j : ℕ) → w.latency j ≤ 1_900_000_000) (punctual : (t : ℕ) → w.late t ≤ 100_000_000)
    (tidy : w.closed ≡ names w.made) where
  abbrev inner : Handler Q World
  inner = new_retry_middleware world_clock close_body (some policy) serve

  loop_end :
      Recovers {Q = Q}
        (some q)
        (w.time + 10_000_000_000)
        (pos w.time)
        (omega arith)
        k
        code
        (entered w)
        (inner (timed (some q) w.time) (entered w))
  unfolding new_retry_middleware resili.Retry.Execute.execute_with_result
  loop_end =
      loop-Recovers (some q) (w.time + 10_000_000_000) (pos w.time) (omega arith) k 3 0 code none
        (entered w) fails answer good quick punctual (omega arith) (omega arith) (omega arith) refl
        tidy

  abbrev ended : World
  ended = (inner (timed (some q) w.time) (entered w)).1

  abbrev resp : Response
  resp = record { status_code = code; body = some loop_end.held }

  client_answers :
      do_request world_clock close_body (chain_over (pipeline hedge) serve) (some q) (ready w) ≡ (
        (some resp, none),
        record ended { limiter = done (pos w.time) (pos ended.time) true ended.limiter },
      )
  unfolding do_request wrap_hedge_with_retry_limit
  client_answers =
      limiter_passes (some q) w.time _ (some resp, none) (ready w) ended
        (classifier_passes (some q) w.time _ resp _ ended good (
          breaker_passes (some q) w.time _ resp _ ended refl
            (timeout_passes (some q) w.time inner resp (entered w) ended small
              (ap (λ (reply : Reply). (reply, ended)) loop_end.reply) loop_end.early)
            loop_end.cb))

-- The program with a server that fails at first, at most twice, each time in a way that is retried,
-- and then answers with a status below 400. No attempt takes more than 1.9 seconds, no sleep lasts
-- more than 0.1 seconds longer than it is told to, otherwise no time passes until the response is
-- there, and the request can be made and the body read. Then the program completes with that
-- status, after one attempt more than those that failed, and every body that was opened has been
-- closed, once. No hedging takes place, whatever the hedge middleware is.
pub run_completes :
    {Q : Type 0} (read_all : ℕ → Option Err × ℕ) (fl : Float64) (half : fl.Float)
    (hedge : Middleware Q World) (q : Q) (k : ℕ) (code : ℤ) (w : World)
    → fl.is_pos half ≡ true
    → fl.at_most_one half ≡ true
    → fl.per_mille half ≡ pos 500
    → ((b : ℕ) → (read_all b).0 ≡ none)
    → w.time < 2 ^ 61
    → w.closed ≡ names w.made
    → ((j : ℕ) → w.latency j ≤ 1_900_000_000)
    → ((t : ℕ) → w.late t ≤ 100_000_000)
    → k ≤ 2
    → ((j : ℕ) → j < k → IsRetried (w.replies (w.served + j)))
    → w.replies (w.served + k) ≡ (some code, none)
    → code <ℤ pos 400
    → let (ending, w') = run read_all fl half hedge (inl q) w in
      (ending ≡ completed code) × (w'.served ≡ w.served + suc k) × (w'.closed ≡ names w'.made)
unfolding run new_client
run_completes read_all fl half hedge q k code w positive most is_half readable small tidy quick
      punctual few fails answer good =
    let r = loop_end hedge q k code w small few fails answer good quick punctual tidy in
    rw
      (
        budget_half fl half positive most is_half,
        client_answers hedge q k code w small few fails answer good quick punctual tidy,
        readable r.held,
        r.made,
      )
      (refl, r.served, ap (λ bodies. r.held ∷ bodies) r.closed)
