-- ===== src/Hedge/Race/Fired.antt =====
-- hedge/hedge.go, ExecuteWithResultCtx: the attempts are fired in order, up to maxAttempts.
use resili.Prelude.{ℕ, ◌≤◌, ◌≡◌, ◌≢◌, arith}
use resili.Hedge.{HedgeState, Shared}
use resili.Hedge.Race.{
  Request, Main, waiting, Attempt, unfired, MainMove, receive, give_up, drain, leave, leave_last,
  recycle, AttemptMove, answer, exit, exit_last, put_back, System, Step, main_moves, fire,
  attempt_moves, ctx_ends, Reach, start, later,
}

pub record Fired {R : Type 0} (q : Request R) (s : System R) : Type 0 where
  pub beyond : (i : ℕ) → q.max_attempts ≤ i → s.attempt i ≡ unfired
  pub fresh :
      (k : ℕ)
      → s.main ≡ waiting k
      → (1 ≤ k) × (k ≤ q.max_attempts) × ((i : ℕ) → k ≤ i → s.attempt i ≡ unfired)

pub MainMove-not_waiting :
    {R : Type 0} (q : Request R) {a c : Shared R} {p m : Main R} (k : ℕ)
    → MainMove q a p c m
    → m ≢ waiting k
MainMove-not_waiting q k (receive _) e = ground arith
MainMove-not_waiting q k (give_up _) e = ground arith
MainMove-not_waiting q k drain e = ground arith
MainMove-not_waiting q k (leave _) e = ground arith
MainMove-not_waiting q k (leave_last _) e = ground arith
MainMove-not_waiting q k recycle e = ground arith

pub AttemptMove-not_unfired :
    {R : Type 0} {a c : Shared R} {p t : Attempt} → AttemptMove a p c t → p ≢ unfired
AttemptMove-not_unfired (answer _) e = ground arith
AttemptMove-not_unfired (exit _) e = ground arith
AttemptMove-not_unfired (exit_last _) e = ground arith
AttemptMove-not_unfired put_back e = ground arith

Step-Fired : {R : Type 0} (q : Request R) {s t : System R} → Step q s t → Fired q s → Fired q t
Step-Fired q (main_moves mv) inv = record {
  beyond = inv.beyond;
  fresh = λ k e. absurd (MainMove-not_waiting q k mv e);
}
Step-Fired q {s} (fire k e lt) inv = record {
  beyond = λ i h. ground (arith, inv.beyond i h);
  fresh = λ j g.
      (ground (arith, inv.fresh k e), ground arith, λ i h. ground (arith, (inv.fresh k e).2 i));
}
Step-Fired q {s} (attempt_moves i mv) inv = record {
  beyond = λ j h. ground (arith, inv.beyond j h, AttemptMove-not_unfired mv);
  fresh = λ k e. (
    (inv.fresh k e).0,
    (inv.fresh k e).1,
    λ j h. ground (arith, (inv.fresh k e).2 j h, AttemptMove-not_unfired mv),
  );
}
Step-Fired q (ctx_ends e) inv = record { beyond = inv.beyond; fresh = inv.fresh }

pub Reach-Fired :
    {R : Type 0} (q : Request R) (pooled : HedgeState R) {n : ℕ} {s : System R}
    → Reach q pooled n s
    → 1 ≤ q.max_attempts
    → Fired q s
Reach-Fired q pooled start h = record {
  beyond = λ i g. ground arith;
  fresh = λ k e. (ground arith, ground arith, λ i g. ground arith);
}
Reach-Fired q pooled (later r st) h = Step-Fired q st (Reach-Fired q pooled r h)
