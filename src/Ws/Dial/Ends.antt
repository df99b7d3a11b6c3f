-- ===== src/Ws/Dial/Ends.antt =====
-- rws/hedge.go: every hedged dial comes to an end.
use resili.Prelude.{
  ℕ, suc, ◌+◌, ◌*◌, ◌^◌, ◌≤◌, ◌<◌, ◌≡◌, ◌⊎◌, inl, inr, refl, Bool, true, false, none, arith,
}
use resili.Hedge.{HedgeState}
use resili.Hedge as Hedge
use resili.Hedge.Race as Race
use resili.Hedge.Race.{Attempt}
use resili.Hedge.Race.Recycling.{IsAtRest, is_over}
use resili.Hedge.Race.Ends.{race_ends}
use resili.Ws.Dial.{
  Dialed, Shared, Main, waiting, finishing, recycling, settling, settled, MainMove, receive, leave,
  leave_last, recycle, settle, AttemptMove, answer, exit, exit_last, put_back, System, Step,
  main_moves, fire, attempt_moves, Reach,
}
use resili.Ws.Dial.Refines.{
  call_shared, call_main, call_system, call_request, extra-le, Reach-IsRun,
}

abbrev pub CanMove : ℕ → System → Type 0
CanMove max_attempts s = (t : System) × Step max_attempts s t

module _ (max_attempts : ℕ) (s : System) where
  move_main :
      {c : Shared} {p m : Main} → s.main ≡ p → MainMove s.shared p c m → CanMove max_attempts s
  move_main {c} {p} {m} e mv =
      let mv' : MainMove s.shared s.main c m = rw e mv in (_, main_moves mv')

  -- A move of the coordinator of the call is one of the dial.
  main-CanMove :
      (p : Main) {c : Hedge.Shared Dialed} {m : Race.Main Dialed}
      → s.main ≡ p
      → Race.MainMove (call_request max_attempts) (call_shared s.shared) (call_main p) c m
      → CanMove max_attempts s
  main-CanMove (waiting k) e (Race.receive r) = move_main e (receive r)
  main-CanMove (waiting k) e (Race.give_up never) = absurd (ground (arith, never))
  main-CanMove (finishing r) e (Race.leave h) = move_main e (leave h)
  main-CanMove (finishing r) e (Race.leave_last h) = move_main e (leave_last h)
  main-CanMove (recycling r) e Race.recycle = move_main e recycle
  main-CanMove (settling r) e mv = elim mv [ ]
  main-CanMove (settled r) e mv = elim mv [ ]

  attempt-CanMove :
      (i : ℕ) {c : Hedge.Shared Dialed} {p : Attempt}
      → Race.AttemptMove (call_shared s.shared) (s.attempt i) c p
      → CanMove max_attempts s
  attempt-CanMove i mv = go (s.attempt i) refl mv
    where
      by_move :
          {c : Shared} {q p : Attempt}
          → s.attempt i ≡ q
          → AttemptMove s.shared q c p
          → CanMove max_attempts s
      by_move {c} {q} {p} e mv =
          let mv' : AttemptMove s.shared (s.attempt i) c p = rw e mv in (_, attempt_moves i mv')

      go :
          (q : Attempt) {c : Hedge.Shared Dialed} {p : Attempt}
          → s.attempt i ≡ q
          → Race.AttemptMove (call_shared s.shared) q c p
          → CanMove max_attempts s
      go Race.running e (Race.answer r) = by_move e (answer r)
      go Race.reported e (Race.exit h) = by_move e (exit h)
      go Race.reported e (Race.exit_last h) = by_move e (exit_last h)
      go Race.recycling_last e Race.put_back = by_move e put_back
      go Race.unfired e mv = elim mv [ ]
      go Race.ended e mv = elim mv [ ]

  fired-CanMove :
      (p : Main) (k : ℕ)
      → s.main ≡ p
      → call_main p ≡ Race.waiting k
      → k < max_attempts
      → CanMove max_attempts s
  fired-CanMove (waiting j) k e w h = (_, fire j e (ground (arith, w)))
  fired-CanMove (finishing r) k e w h = absurd (ground arith)
  fired-CanMove (recycling r) k e w h = absurd (ground arith)
  fired-CanMove (settling r) k e w h = absurd (ground arith)
  fired-CanMove (settled r) k e w h = absurd (ground arith)

  call-CanMove :
      (t : Race.System Dialed)
      → Race.Step (call_request max_attempts) (call_system s) t
      → t.shared.ctx_done ≡ false
      → CanMove max_attempts s
  call-CanMove t (Race.main_moves mv) never = main-CanMove s.main refl mv
  call-CanMove t (Race.fire k e h) never = fired-CanMove s.main k refl e h
  call-CanMove t (Race.attempt_moves i mv) never = attempt-CanMove i mv
  call-CanMove t (Race.ctx_ends h) never = absurd (ground arith)

abbrev pub is_settled : Main → Bool
is_settled (settled r) = true
is_settled _ = false

-- The coordinator has gone on with its winner, and no attempt runs.
pub record IsDone (s : System) : Type 0 where
  pub gone_on : is_settled s.main ≡ true
  pub all_over : (i : ℕ) → is_over (s.attempt i) ≡ true

rest-moves :
    (max_attempts : ℕ) (s : System) (p : Main)
    → s.main ≡ p
    → IsAtRest (call_system s)
    → IsDone s ⊎ CanMove max_attempts s
rest-moves max_attempts s (settled r) e h = inl (record { gone_on = rw e refl; all_over = h.1 })
rest-moves max_attempts s (settling r) e h = inr (move_main max_attempts s e settle)
rest-moves max_attempts s (waiting k) e h = absurd (ground arith)
rest-moves max_attempts s (finishing r) e h = absurd (ground arith)
rest-moves max_attempts s (recycling r) e h = absurd (ground arith)

-- Every hedged dial ends: it makes at most 4 * maxAttempts + 5 steps, and as long as the coordinator
-- has not gone on with its winner, or some attempt has not ended, there is a next step. The state had
-- an empty channel, and the attempts are fewer than 2 ^ 32 - 1.
pub dial_ends :
    (max_attempts : ℕ) {pooled : HedgeState Dialed} {n : ℕ} {s : System}
    → Reach max_attempts pooled n s
    → pooled.res_ch ≡ none
    → 1 ≤ max_attempts
    → suc max_attempts < 2 ^ 32
    → (n ≤ 4 * max_attempts + 5) × (IsDone s ⊎ CanMove max_attempts s)
dial_ends max_attempts {pooled} {n} {s} r e h small =
    let run = Reach-IsRun max_attempts pooled r in
    let (few, next) = race_ends (call_request max_attempts) run.run e h small in
    (
      omega (arith, few, run.counted, extra-le s.main),
      elim next [
        | inl rest ↦ rest-moves max_attempts s s.main refl rest
        | inr (t, step, same) ↦ inr (call-CanMove max_attempts s t step same)
      ],
    )
