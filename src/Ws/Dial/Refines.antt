-- ===== src/Ws/Dial/Refines.antt =====
-- rws/hedge.go and hedge/hedge.go: every run of a hedged dial is a run of a hedged call whose caller
-- never gives up.
use resili.Prelude.{
  ℕ, suc, ◌+◌, ◌*◌, ◌^◌, ◌≤◌, ◌<◌, ◌≡◌, ◌⊎◌, ◌↔◌, inl, inr, refl, ap, true, false, Option, none,
  some, [], ◌∷◌, arith, get_elem?,
}
use resili.Errors.{Err, Outcome}
use resili.Hedge.{HedgeState, new_state}
use resili.Hedge as Hedge
use resili.Hedge.Race as Race
use resili.Hedge.Race.FirstWins.{first_wins}
use resili.Hedge.Race.Recycling.{recycled-IsAtRest, IsAtRest}
use resili.Hedge.Race.Ends.{race_ends}
use resili.Ws.Dial.{
  Dialed, Shared, Main, waiting, finishing, recycling, settling, settled, MainMove, receive, leave,
  leave_last, recycle, settle, AttemptMove, answer, exit, exit_last, put_back, System, Step,
  main_moves, fire, attempt_moves, Reach, start, later,
}

-- A hedged dial as a hedged call; what it closes and drops is forgotten.
abbrev pub call_shared : Shared → Hedge.Shared Dialed
call_shared a = record {
  state = a.state;
  ctx_done = false;
  cancelled = a.cancelled;
  pool = a.pool;
  finished = a.finished;
}

abbrev pub call_main : Main → Race.Main Dialed
call_main (waiting k) = Race.waiting k
call_main (finishing r) = Race.finishing r
call_main (recycling r) = Race.recycling r
call_main (settling r) = Race.returned r
call_main (settled r) = Race.returned r

abbrev pub call_system : System → Race.System Dialed
call_system s = record {
  shared = call_shared s.shared;
  main = call_main s.main;
  attempt = s.attempt;
}

-- A dial has no zero value and no context to give up with: these are never used.
abbrev pub call_request : ℕ → Race.Request Dialed
call_request max_attempts = record {
  max_attempts = max_attempts;
  zero_value = record { conn = none; body = none };
  ctx_err = Err.retry;
}

-- The last step, which closes the body of the winner, is none of the call.
abbrev pub extra : Main → ℕ
extra (settled _) = 1
extra _ = 0

MainMove-call :
    (max_attempts : ℕ) {a c : Shared} {p m : Main}
    → MainMove a p c m
    → (Race.MainMove
          (call_request max_attempts)
          (call_shared a)
          (call_main p)
          (call_shared c)
          (call_main m)
        × (extra m ≡ extra p))
      ⊎ ((call_shared c ≡ call_shared a) × (call_main m ≡ call_main p) × (extra m ≡ suc (extra p)))
MainMove-call max_attempts (receive e) = inl (Race.receive e, refl)
MainMove-call max_attempts (leave e) = inl (Race.leave e, refl)
MainMove-call max_attempts (leave_last e) = inl (Race.leave_last e, refl)
MainMove-call max_attempts recycle = inl (Race.recycle, refl)
MainMove-call max_attempts settle = inr (refl, refl, refl)

AttemptMove-call :
    {a c : Shared} {p t : Race.Attempt}
    → AttemptMove a p c t
    → Race.AttemptMove (call_shared a) p (call_shared c) t
AttemptMove-call (answer r) = Race.answer r
AttemptMove-call (exit e) = Race.exit e
AttemptMove-call (exit_last e) = Race.exit_last e
AttemptMove-call put_back = Race.put_back

-- The system of the call after `s`, reached in as many steps but the last of the coordinator.
pub record IsRun (max_attempts : ℕ) (pooled : HedgeState Dialed) (n : ℕ) (s : System) : Type 0 where
  pub steps : ℕ
  pub run : Race.Reach (call_request max_attempts) pooled steps (call_system s)
  pub counted : n ≡ steps + extra s.main

Step-IsRun :
    (max_attempts : ℕ) (pooled : HedgeState Dialed) {n : ℕ} {s t : System}
    → Step max_attempts s t
    → IsRun max_attempts pooled n s
    → IsRun max_attempts pooled (suc n) t
Step-IsRun max_attempts pooled {s = s} (main_moves mv) r = elim (MainMove-call max_attempts mv) [
  | inl (mv', same) ↦ record {
    steps = suc r.steps;
    run = Race.later r.run (Race.main_moves mv');
    counted = omega (arith, r.counted);
  }
  | inr (a, m, one) ↦ record {
    steps = r.steps;
    run = rw (a, m) r.run;
    counted = omega (arith, r.counted);
  }
]
Step-IsRun max_attempts pooled {s = s} (fire k e lt) r = record {
  steps = suc r.steps;
  run = Race.later r.run (Race.fire k (ap call_main e) lt);
  counted = omega (arith, r.counted, ap extra e);
}
Step-IsRun max_attempts pooled {s = s} (attempt_moves i mv) r = record {
  steps = suc r.steps;
  run = Race.later r.run (Race.attempt_moves i (AttemptMove-call mv));
  counted = omega (arith, r.counted);
}

pub Reach-IsRun :
    (max_attempts : ℕ) (pooled : HedgeState Dialed) {n : ℕ} {s : System}
    → Reach max_attempts pooled n s
    → IsRun max_attempts pooled n s
Reach-IsRun max_attempts pooled start = record { steps = 0; run = Race.start; counted = refl }
Reach-IsRun max_attempts pooled (later r st) =
    Step-IsRun max_attempts pooled st (Reach-IsRun max_attempts pooled r)

pub extra-le : (m : Main) → extra m ≤ 1
extra-le m = ground arith

-- The winner, once the coordinator has let go of the state.
abbrev pub winner_of : Main → Option (Outcome Dialed)
winner_of (settling r) = some r
winner_of (settled r) = some r
winner_of _ = none

abbrev pub IsWon : System → Type 0
IsWon s =
    (winner_of s.main ≡ none)
    ⊎ ((s.shared.cancelled ≡ true) × (winner_of s.main ≡ get_elem? s.shared.finished 0))

call-IsWon :
    (max_attempts : ℕ) {pooled : HedgeState Dialed} {n : ℕ} (s : System) (m : Main)
    → s.main ≡ m
    → Race.Reach (call_request max_attempts) pooled n (call_system s)
    → pooled.res_ch ≡ none
    → 1 ≤ max_attempts
    → suc max_attempts < 2 ^ 32
    → IsWon s
call-IsWon max_attempts s (waiting k) e r empty h small = inl (ap winner_of e)
call-IsWon max_attempts s (finishing w) e r empty h small = inl (ap winner_of e)
call-IsWon max_attempts s (recycling w) e r empty h small = inl (ap winner_of e)
call-IsWon max_attempts s (settling w) e r empty h small =
    ground (arith, first_wins (call_request max_attempts) w r empty h small (ap call_main e))
call-IsWon max_attempts s (settled w) e r empty h small =
    ground (arith, first_wins (call_request max_attempts) w r empty h small (ap call_main e))

-- A run of a hedged dial is, step by step, a run of a hedged call whose caller never gives up, but
-- for the last step of the coordinator, which closes the body of the winner. So it makes at most
-- 4 * maxAttempts + 5 steps; its winner, once there is one, is the first result that any attempt
-- reported, an error as well as a connection, and the other dials are cancelled; and its state is put
-- back once, empty, exactly if the coordinator has let go and all attempts have ended. The state had
-- an empty channel, and the attempts are fewer than 2 ^ 32 - 1.
pub dial-IsRun :
    (max_attempts : ℕ) {pooled : HedgeState Dialed} {n : ℕ} {s : System}
    → Reach max_attempts pooled n s
    → pooled.res_ch ≡ none
    → 1 ≤ max_attempts
    → suc max_attempts < 2 ^ 32
    → IsRun max_attempts pooled n s
      × (n ≤ 4 * max_attempts + 5)
      × IsWon s
      × ((s.shared.pool ≡ []) ⊎ (s.shared.pool ≡ new_state ∷ []))
      × ((s.shared.pool ≡ new_state ∷ []) ↔ IsAtRest (call_system s))
dial-IsRun max_attempts {pooled} {n} {s} r e h small = (
  run,
  omega (arith, (race_ends q run.run e h small).0, run.counted, extra-le s.main),
  call-IsWon max_attempts s s.main refl run.run e h small,
  (recycled-IsAtRest q run.run h small).0,
  (recycled-IsAtRest q run.run h small).1,
)
  where
    q : Race.Request Dialed
    q = call_request max_attempts

    run : IsRun max_attempts pooled n s
    run = Reach-IsRun max_attempts pooled r
