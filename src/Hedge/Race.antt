-- ===== src/Hedge/Race.antt =====
-- hedge/hedge.go, ExecuteWithResultCtx and hedgeAttemptCtx: the coordinator and its attempts, as steps
-- in any order. A step is one access to what they share; the end of a wait and the cancellation after
-- it are one step, so are the increment and the start of an attempt, and the two parts of
-- recycleState.
pub mod Fired
pub mod References
pub mod Recycling
pub mod FirstWins
pub mod Cost
pub mod Fanout
pub mod Ends
use resili.Prelude.{
  ℕ, zero, suc, ◌<◌, ◌≡◌, ◌≢◌, Bool, true, false, ℤ, pos, Option, none, some, List, [], update,
}
use resili.Errors.{Err, Outcome}
use resili.Hedge.{
  HedgeState, Shared, on_state, report, cancel, recycle_state, drain_pending, retain, release,
  begin, is_fast,
}

-- The arguments of a call: `zero_value` is the zero value of the response, `ctx_err` what ctx.Err()
-- returns once the context of the caller is done.
pub record Request (R : Type 0) : Type 0 where
  pub max_attempts : ℕ
  pub zero_value : R
  pub ctx_err : Err

-- Where the coordinator stands.
pub data Main (R : Type 0) : Type 0 where
  waiting : (fired : ℕ) → Main R  -- in a `select`, with so many attempts fired
  draining : Main R  -- the caller gave up
  finishing : Outcome R → Main R  -- it has its result and holds its reference
  recycling : Outcome R → Main R  -- it was the last to let go
  returned : Outcome R → Main R

pub data Attempt : Type 0 where
  unfired : Attempt
  running : Attempt
  reported : Attempt
  recycling_last : Attempt  -- it was the last to let go
  ended : Attempt

pub data MainMove {R : Type 0} (q : Request R) (a : Shared R)
    : Main R → Shared R → Main R → Type 0 where
  receive :
      {k : ℕ} {r : Outcome R}
      → a.state.res_ch ≡ some r
      → MainMove q a (waiting k) (cancel (on_state drain_pending a)) (finishing r)
  give_up : {k : ℕ} → a.ctx_done ≡ true → MainMove q a (waiting k) (cancel a) draining
  drain :
      MainMove q a draining (on_state drain_pending a) (finishing (q.zero_value, some q.ctx_err))
  leave :
      {r : Outcome R}
      → (release a.state).active ≢ 0
      → MainMove q a (finishing r) (on_state release a) (returned r)
  leave_last :
      {r : Outcome R}
      → (release a.state).active ≡ 0
      → MainMove q a (finishing r) (on_state release a) (recycling r)
  recycle : {r : Outcome R} → MainMove q a (recycling r) (recycle_state a) (returned r)

pub data AttemptMove {R : Type 0} (a : Shared R) : Attempt → Shared R → Attempt → Type 0 where
  answer : (r : Outcome R) → AttemptMove a running (report r a) reported
  exit : (release a.state).active ≢ 0 → AttemptMove a reported (on_state release a) ended
  exit_last :
      (release a.state).active ≡ 0 → AttemptMove a reported (on_state release a) recycling_last
  put_back : AttemptMove a recycling_last (recycle_state a) ended

pub record System (R : Type 0) : Type 0 where
  pub shared : Shared R
  pub main : Main R
  pub attempt : ℕ → Attempt

pub data Step {R : Type 0} (q : Request R) (s : System R) : System R → Type 0 where
  main_moves :
      {a : Shared R} {m : Main R}
      → MainMove q s.shared s.main a m
      → Step q s (record s { shared = a; main = m })
  -- The timer runs out, and the loop fires one more attempt.
  fire :
      (k : ℕ)
      → s.main ≡ waiting k
      → k < q.max_attempts
      → Step q s (record {
        shared = on_state retain s.shared;
        main = waiting (suc k);
        attempt = update s.attempt k running;
      })
  attempt_moves :
      (i : ℕ) {a : Shared R} {p : Attempt}
      → AttemptMove s.shared (s.attempt i) a p
      → Step q s (record s { shared = a; attempt = update s.attempt i p })
  ctx_ends :
      s.shared.ctx_done ≡ false
      → Step q s (record s { shared = record s.shared { ctx_done = true } })

-- The start of a call, with a state of the pool.
abbrev pub initial : {R : Type 0} → HedgeState R → System R
initial pooled = record {
  shared = record {
    state = begin pooled;
    ctx_done = false;
    cancelled = false;
    pool = [];
    finished = [];
  };
  main = waiting 1;
  attempt = update (λ _. unfired) 0 running;
}

-- What `n` steps reach.
pub data Reach {R : Type 0} (q : Request R) (pooled : HedgeState R) : ℕ → System R → Type 0 where
  start : Reach q pooled 0 (initial pooled)
  later : {n : ℕ} {s t : System R} → Reach q pooled n s → Step q s t → Reach q pooled (suc n) t
