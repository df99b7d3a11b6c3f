-- ===== src/Ws/Tests.antt =====
-- rws/: the theorems at concrete inputs.
use resili.Prelude.{
  ℕ, ◌+◌, ◌*◌, ◌≤◌, ◌≡◌, ◌⊎◌, ◌↔◌, refl, [], ◌∷◌, none, some, arith, is_it, occurrences, update,
  ℕ_discrete,
}
use resili.Errors.{Outcome}
use resili.Hedge.{new_state}
use resili.Hedge.Race.{reported}
use resili.Hedge.Race.Recycling.{IsAtRest}
use resili.Ws.Persistent.Shared as Shared
use resili.Ws.Persistent.Shared.{Pc, take, fail, kept_or_closed}
use resili.Ws.Dial.{
  Dialed, System, settled, waiting, Reach, start, later, attempt_moves, answer, initial, report,
}
use resili.Ws.Dial.Refines.{IsRun, IsWon, call_system, dial-IsRun}
use resili.Ws.Dial.Ends.{IsDone, CanMove, dial_ends}
use resili.Ws.Dial.Accounts.{in_results, dialed_kept}
use resili.Ws.Dial.Lost.{second_dial_lost}

-- One goroutine connects, and its roundtrip fails.
abbrev broken : Shared.System
broken = record {
  kept = record { conn = none; taken = 4 ∷ []; closed = 4 ∷ [] };
  pc = update (update (λ _. Pc.idle) 0 (Pc.running 4)) 0 Pc.idle;
}

broken_reached : Shared.Reach broken
unfolding ℕ_discrete
broken_reached =
    Shared.later (Shared.later Shared.start (Shared.pick 0 (take 4 refl refl)))
      (Shared.pick 0 {p = Pc.idle} fail)

kept_or_closed_example :
    (occurrences 4 broken.kept.taken ≡ occurrences 4 broken.kept.closed + is_it 4 broken.kept.conn)
    × (occurrences 4 broken.kept.closed + is_it 4 broken.kept.conn ≤ 1)
kept_or_closed_example = kept_or_closed 4 broken_reached

abbrev dialed : ℕ → Outcome Dialed
dialed c = (record { conn = some c; body = some c }, none)

second_dial_lost_example :
    (n : ℕ) × (s : System) × Reach 2 new_state n s
    × (s.main ≡ settled (dialed 5))
    × (s.shared.finished ≡ dialed 5 ∷ dialed 6 ∷ [])
    × (s.shared.dropped ≡ dialed 6 ∷ [])
    × (s.shared.closed ≡ [])
    × (s.shared.released ≡ 5 ∷ [])
    × IsAtRest (call_system s)
second_dial_lost_example = second_dial_lost 2 (omega arith) (dialed 5) (dialed 6)

-- The first attempt has answered.
abbrev answered : System
answered = record {
  shared = report (dialed 5) (initial new_state).shared;
  main = waiting 1;
  attempt = update (initial new_state).attempt 0 reported;
}

answered_reached : Reach 2 new_state 1 answered
unfolding ℕ_discrete
answered_reached = later start (attempt_moves 0 {p = reported} (answer (dialed 5)))

dial-IsRun_example :
    IsRun 2 new_state 1 answered
    × (1 ≤ 4 * 2 + 5)
    × IsWon answered
    × ((answered.shared.pool ≡ []) ⊎ (answered.shared.pool ≡ new_state ∷ []))
    × ((answered.shared.pool ≡ new_state ∷ []) ↔ IsAtRest (call_system answered))
dial-IsRun_example = dial-IsRun 2 answered_reached refl (omega arith) (omega arith)

dialed_kept_example :
    (in_results (λ d. d.conn) 5 answered.shared.finished ≡ 0 + 1 + 0 + 0)
    × (in_results (λ d. d.body) 5 answered.shared.finished ≡ 0 + 1 + 0 + 0)
    × (0 ≤ 1)
dialed_kept_example = dialed_kept 5 2 answered_reached refl (omega arith) (omega arith)

dial_ends_example : (1 ≤ 4 * 2 + 5) × (IsDone answered ⊎ CanMove 2 answered)
dial_ends_example = dial_ends 2 answered_reached refl (omega arith) (omega arith)
