-- ===== src/Http/Client/Tests.antt =====
-- rhttp/client.go: the theorems at concrete inputs.
use resili.Prelude.{
  ℕ, suc, arith, ℕ_discrete, ◌≤◌, ◌*◌, ◌+◌, refl, true, false, pos, none, some, [], ◌∷◌,
  occurrences, ltb, ◌==◌, if◌then◌else◌,
}
use resili.Errors.{foreign}
use resili.Breaker.State.{default_breaker}
use resili.Limiter.Options.{default_options}
use resili.Hedge.{new_state}
use resili.Hedge.Execute.{raced}
use resili.Hedge.Race.{
  Attempt, fire, attempt_moves, main_moves, answer, receive, leave, start, later,
}
use resili.Http.Middleware.{Middleware, Handler, Request}
use resili.Http.Hedge.{attempt}
use resili.Http.Client.Accounts.Hedging.{attempts, Raced, Hedging, hedged_pipeline}
use resili.Http.Client.{new_client}
use resili.Http.Client.Accounts.{World, by_policy, IsWithin}
use resili.Http.Client.Accounts.Fanout.{client_load}
use resili.Http.Client.Accounts.Requests.{Choice, after_requests, bodies_in}
use resili.Http.Client.Accounts.Bodies.{client_bodies}

abbrev everything : Choice
everything = record {
  limited = true;
  broken = true;
  classified = true;
  timeout = none;
  retry = some (
      by_policy true (record {
        max_attempts = pos 3;
        backoff = none;
        should_retry = none;
        budget = none;
        try_deadline = pos 0;
      }));
}

-- The first attempt is not answered, the second with status 503, and all others with status 200.
abbrev new_world : World
new_world = record {
  limiter = record {
    opts = default_options;
    limit = pos 3;
    inflight = pos 0;
    rtt_min = pos 1;
    rtt_ema = pos 0;
    cycle_index = 0;
    stop_ch_closed = false;
    done_closed = false;
  };
  cb = default_breaker;
  budget = record { success = 0; retries = 0; ratio = pos 200 };
  clock = λ k. pos (suc k);
  reads = 0;
  replies = λ k.
      if k == 0
      then (none, some (foreign 1))
      else (some (if k == 1 then pos 503 else pos 200), none);
  served = 0;
  made = 0;
  closed = [];
}

-- Both attempts of the hedge run, and the second one is done first.
abbrev second_first : Middleware ℕ World
second_first next req w =
    let (reply, w₁) = next (attempt (λ (ctx q : ℕ). q) 1 req) w in
    let (late, w₂) = next (attempt (λ (ctx q : ℕ). q) 0 req) w₁ in (reply, w₂)

-- The first attempt ends after the call has returned.
second_first-races :
    (next : Handler ℕ World) (req : Request ℕ) (w : World)
    → Raced (λ (ctx q : ℕ). q) (pos 5) (pos 2) next req w (second_first next req w)
unfolding attempts ℕ_discrete
second_first-races next req w = record {
  ctxs = 1 ∷ 0 ∷ [];
  ctx_err = foreign 3;
  pooled = new_state;
  empty = refl;
  after = refl;
  race =
      raced refl 2 refl _
        (later
          (later
            (later
              (later (later start (fire 1 refl (omega arith)))
                (attempt_moves 1 {p = Attempt.reported} (answer _)))
              (main_moves (receive refl)))
            (main_moves (leave (λ e. ground arith))))
          (attempt_moves 0 {p = Attempt.reported} (answer _)))
        refl;
}

abbrev hedging : Hedging (λ (ctx q : ℕ). q)
hedging = record {
  delay = pos 5;
  max_attempts = pos 2;
  few = omega arith;
  middleware = second_first;
  races = second_first-races;
}

client_bodies_example :
    let (resps, w') =
      after_requests {Q = ℕ}
        (new_client (hedged_pipeline (λ (ctx q : ℕ). q) everything (some hedging) (pos 1)))
        (some 1 ∷ some 2 ∷ [])
        new_world in
    IsWithin false (occurrences 0 w'.closed + bodies_in 0 resps) (if ltb 0 w'.made then 1 else 0)
client_bodies_example =
    client_bodies (λ (ctx q : ℕ). q) 0 everything (some hedging) (pos 1) (some 1 ∷ some 2 ∷ [])
      new_world refl refl

-- Three attempts of the retry loop, of two calls each, for either request.
client_load_example :
    (after_requests {Q = ℕ}
      (new_client (hedged_pipeline (λ (ctx q : ℕ). q) everything (some hedging) (pos 1)))
      (some 1 ∷ some 2 ∷ [])
      new_world).1.served
    ≤ 0 + 6 * 2
client_load_example =
    client_load (λ (ctx q : ℕ). q) everything (some hedging) (pos 1) (some 1 ∷ some 2 ∷ [])
      new_world
