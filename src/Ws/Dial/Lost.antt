-- ===== src/Ws/Dial/Lost.antt =====
-- rws/hedge.go, hedgeDialAttempt: a second connection that nobody closes.
use resili.Prelude.{ℕ, ◌<◌, ◌≡◌, refl, true, [], ◌∷◌, arith, update, ℕ_discrete}
use resili.Errors.{Outcome}
use resili.Hedge.{new_state, retain, release}
use resili.Hedge.Race.{running, reported, recycling_last, ended}
use resili.Hedge.Race.Recycling.{IsAtRest}
use resili.Ws.Dial.{
  Dialed, waiting, finishing, settling, settled, receive, leave, settle, answer, exit, exit_last,
  put_back, System, main_moves, fire, attempt_moves, Reach, start, later, initial, on_state, report,
  recycle_dial_state, close_handshake_body, push,
}
use resili.Hedge.{drain_pending}
use resili.Ws.Dial.Refines.{call_system}

module _ (max_attempts : ℕ) (several : 1 < max_attempts) (first second : Outcome Dialed) where
  abbrev two_fired : System
  two_fired = record {
    shared = on_state retain (initial new_state).shared;
    main = waiting 2;
    attempt = update (initial new_state).attempt 1 running;
  }

  two_fired-Reach : Reach max_attempts new_state 1 two_fired
  two_fired-Reach = later start (fire 1 refl several)

  -- The first attempt reports, and the coordinator takes its result.
  abbrev won : System
  won = record {
    shared = record (on_state drain_pending (report first two_fired.shared)) { cancelled = true };
    main = finishing first;
    attempt = update two_fired.attempt 0 reported;
  }

  won-Reach : Reach max_attempts new_state 3 won
  unfolding ℕ_discrete
  won-Reach =
      later (later two_fired-Reach (attempt_moves 0 {p = reported} (answer first)))
        (main_moves (receive refl))

  -- The second attempt finds the channel empty, and takes itself for the winner.
  abbrev both : System
  both = record won { shared = report second won.shared; attempt = update won.attempt 1 reported }

  both-Reach : Reach max_attempts new_state 4 both
  unfolding ℕ_discrete
  both-Reach = later won-Reach (attempt_moves 1 {p = reported} (answer second))

  abbrev left : System
  left = record {
    shared = on_state release (on_state release both.shared);
    main = settling first;
    attempt = update both.attempt 0 ended;
  }

  left-Reach : Reach max_attempts new_state 6 left
  unfolding ℕ_discrete
  left-Reach =
      later (later both-Reach (attempt_moves 0 {p = ended} (exit (λ e. ground arith))))
        (main_moves (leave (λ e. ground arith)))

  abbrev over : System
  over = record {
    shared = close_handshake_body first.0.body (recycle_dial_state (on_state release left.shared));
    main = settled first;
    attempt = update (update left.attempt 1 recycling_last) 1 ended;
  }

  over-Reach : Reach max_attempts new_state 9 over
  unfolding ℕ_discrete
  over-Reach =
      later
        (later (later left-Reach (attempt_moves 1 {p = recycling_last} (exit_last refl)))
          (attempt_moves 1 {p = ended} put_back))
        (main_moves settle)

  -- For any two results of the first two dials there is a run in which the first wins, both dials are
  -- over, and what the second has made is dropped with the state: neither its connection nor its body
  -- is closed, and only the body of the winner is.
  pub second_dial_lost :
      (n : ℕ) × (s : System) × Reach max_attempts new_state n s
      × (s.main ≡ settled first)
      × (s.shared.finished ≡ first ∷ second ∷ [])
      × (s.shared.dropped ≡ second ∷ [])
      × (s.shared.closed ≡ [])
      × (s.shared.released ≡ push first.0.body [])
      × IsAtRest (call_system s)
  second_dial_lost = (9, over, over-Reach, refl, refl, refl, refl, refl, (refl, λ i. ground arith))
