-- ===== src/Examples/Http/Fails.antt =====
-- examples/http/http.go: the whole program, when every attempt fails.
use resili.Prelude.{
  ◌∙◌, false, ℕ, ◌+◌, ◌^◌, ◌≤◌, ◌<◌, ◌≡◌, refl, true, pos, Option, none, some, inl, arith, ap,
}
use resili.Errors.{Err, retry, join}
use resili.Retry.Budget.{Float64}
use resili.Examples.Http.Attempts.{names, IsRetried}
use resili.Examples.Http.Exhausts.{Exhausts, three_turns-Exhausts}
use resili.Http.Client.{new_client, chain_over, wrap_hedge_with_retry_limit}
use resili.Limiter.State.{done}
use resili.Breaker.State.{count_failure}
use resili.Http.Classifier.{final_err}
use resili.Http.Middleware.{Handler, Middleware, Reply, do_request, new_retry_middleware}
use resili.Examples.Http.{
  World, world_clock, close_body, serve, policy, pipeline, request_failed, run,
}
use resili.Examples.Http.Layers.{
  timed, timeout_fails, breaker_fails, counting, classifier_keeps, limiter_passes, budget_half,
  entered, ready,
}

-- ErrRetry, joined with the error of the last attempt if it had one.
abbrev pub exhaustion : Option Err → Err
exhaustion none = retry
exhaustion (some err) = join retry err

final-exhaustion : (err : Option Err) → final_err err ≡ some (exhaustion err)
unfolding final_err
final-exhaustion none = refl
final-exhaustion (some err) = refl

module _ {Q : Type 0} (hedge : Middleware Q World) (q : Q) (w : World) (small : w.time < 2 ^ 61)
    (fails : (j : ℕ) → j < 3 → IsRetried (w.replies (w.served + j)))
    (quick : (j : ℕ) → w.latency j ≤ 900_000_000) (punctual : (t : ℕ) → w.late t ≤ 100_000_000)
    (tidy : w.closed ≡ names w.made) where
  abbrev inner : Handler Q World
  inner = new_retry_middleware world_clock close_body (some policy) serve

  loop_end :
      Exhausts {Q = Q}
        (some q)
        (w.time + 10_000_000_000)
        (pos w.time)
        (omega arith)
        (entered w)
        (inner (timed (some q) w.time) (entered w))
  unfolding new_retry_middleware resili.Retry.Execute.execute_with_result
  loop_end =
      three_turns-Exhausts (some q) (w.time + 10_000_000_000) (pos w.time) (omega arith) (entered w)
        fails quick punctual (omega arith) refl tidy

  abbrev ended : World
  ended = (inner (timed (some q) w.time) (entered w)).1

  abbrev last_err : Err
  last_err = exhaustion (w.replies (w.served + 2)).1

  abbrev broken : World
  broken = record ended { cb = count_failure (counting w.time).window (counting w.time) }

  inner_fails : inner (timed (some q) w.time) (entered w) ≡ ((none, some last_err), ended)
  inner_fails =
      ap (λ (reply : Reply). (reply, ended))
        (loop_end.reply
          ∙ ap (λ (err : Option Err). (none, err)) (final-exhaustion (w.replies (w.served + 2)).1))

  client_fails :
      do_request world_clock close_body (chain_over (pipeline hedge) serve) (some q) (ready w) ≡ (
        (none, some last_err),
        record broken { limiter = done (pos w.time) (pos broken.time) false broken.limiter },
      )
  unfolding do_request wrap_hedge_with_retry_limit
  client_fails =
      limiter_passes (some q) w.time _ (none, some last_err) (ready w) broken
        (classifier_keeps (some q) w.time _ last_err _ broken (
          breaker_fails (some q) w.time _ last_err _ ended refl
            (timeout_fails (some q) w.time inner last_err (entered w) ended small inner_fails
              loop_end.early)
            loop_end.cb))

-- The program with a server that fails three times, each time in a way that is retried, where no
-- attempt takes more than 0.9 seconds, no sleep lasts more than 0.1 seconds longer than it is told
-- to, and otherwise no time passes, so that the last wait, of 4 seconds, ends by the deadline: the
-- program ends with ErrRetry, joined with the error of the last attempt if that had one, after
-- three attempts, and every body that was opened has been closed, once.
pub run_fails :
    {Q : Type 0} (read_all : ℕ → Option Err × ℕ) (fl : Float64) (half : fl.Float)
    (hedge : Middleware Q World) (q : Q) (w : World)
    → fl.is_pos half ≡ true
    → fl.at_most_one half ≡ true
    → fl.per_mille half ≡ pos 500
    → w.time < 2 ^ 61
    → w.closed ≡ names w.made
    → ((j : ℕ) → w.latency j ≤ 900_000_000)
    → ((t : ℕ) → w.late t ≤ 100_000_000)
    → ((j : ℕ) → j < 3 → IsRetried (w.replies (w.served + j)))
    → let (ending, w') = run read_all fl half hedge (inl q) w in
      (ending ≡ request_failed (exhaustion (w.replies (w.served + 2)).1))
      × (w'.served ≡ w.served + 3)
      × (w'.closed ≡ names w'.made)
unfolding run new_client
run_fails read_all fl half hedge q w positive most is_half small tidy quick punctual fails =
    let e = loop_end hedge q w small fails quick punctual tidy in
    rw
      (
        budget_half fl half positive most is_half,
        client_fails hedge q w small fails quick punctual tidy,
      )
      (refl, e.served, e.closed)
