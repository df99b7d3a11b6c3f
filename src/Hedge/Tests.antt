-- ===== src/Hedge/Tests.antt =====
-- hedge/: the theorems at concrete inputs.
use resili.Prelude.{
  ℕ, ◌+◌, ◌*◌, ◌≤◌, ◌≡◌, ◌↔◌, ◌⊎◌, refl, arith, true, false, ℤ, pos, Bool, Option, none, some, [],
  ◌∷◌, update, ℕ_discrete,
}
use resili.Errors.{Outcome, foreign}
use resili.Hedge.{new_state, report, retain, release, on_state, cancel, drain_pending}
use resili.Hedge.Race.{
  Request, waiting, finishing, returned, receive, leave, answer, running, reported, System,
  main_moves, attempt_moves, fire, Reach, start, later, initial,
}
use resili.Hedge.Race.FirstWins.{first_wins, IsResult}
use resili.Hedge.Race.Recycling.{recycled-IsAtRest, IsAtRest}
use resili.Hedge.Timers.{Time, get_timer, put_timer, put_timer-get_timer}
use resili.Hedge.Race.Ends.{race_ends, CanMove}

abbrev two_attempts : Request ℕ
two_attempts = record { max_attempts = 2; zero_value = 0; ctx_err = foreign 1 }

abbrev failed : Outcome ℕ
failed = (0, some (foreign 5))

-- The second attempt is fired, and fails before the first one answers.
abbrev fired : System ℕ
fired = record {
  shared = on_state retain (initial {R = ℕ} new_state).shared;
  main = waiting 2;
  attempt = update (initial {R = ℕ} new_state).attempt 1 running;
}

fired_reached : Reach two_attempts new_state 1 fired
fired_reached = later start (fire 1 refl (omega arith))

abbrev answered : System ℕ
answered = record fired {
  shared = report failed fired.shared;
  attempt = update fired.attempt 1 reported;
}

answered_reached : Reach two_attempts new_state 2 answered
unfolding ℕ_discrete
answered_reached = later fired_reached (attempt_moves 1 {p = reported} (answer failed))

abbrev won : System ℕ
won = record answered {
  shared = cancel (on_state drain_pending answered.shared);
  main = finishing failed;
}

won_reached : Reach two_attempts new_state 3 won
won_reached = later answered_reached (main_moves (receive refl))

abbrev back : System ℕ
back = record won { shared = on_state release won.shared; main = returned failed }

back_reached : Reach two_attempts new_state 4 back
back_reached = later won_reached (main_moves (leave (λ e. ground arith)))

recycled-IsAtRest_example :
    ((back.shared.pool ≡ []) ⊎ (back.shared.pool ≡ new_state ∷ []))
    × ((back.shared.pool ≡ new_state ∷ []) ↔ IsAtRest back)
recycled-IsAtRest_example = recycled-IsAtRest two_attempts back_reached (omega arith) (omega arith)

first_wins_example : (back.shared.cancelled ≡ true) × IsResult two_attempts back.shared failed
first_wins_example =
    first_wins two_attempts failed back_reached refl (omega arith) (omega arith) refl

race_ends_example : (4 ≤ 4 * 2 + 4) × (IsAtRest back ⊎ CanMove two_attempts back)
race_ends_example = race_ends two_attempts back_reached refl (omega arith) (omega arith)

-- A timer by what it shows: one that is set runs out at once, with a tick.
abbrev after_stop : Option ℤ → Bool → Bool × (Option ℤ × Bool)
after_stop none tick = (false, (none, tick))
after_stop (some d) tick = (true, (none, false))

abbrev after_time : Option ℤ → Bool → Option ℤ × Bool
after_time none tick = (none, tick)
after_time (some d) tick = (none, true)

stop_due : (t : Option ℤ × Bool) → (after_stop t.0 t.1).1.0 ≡ none
stop_due (none, tick) = refl
stop_due (some d, tick) = refl

stop_quiet :
    (t : Option ℤ × Bool) → (after_stop t.0 t.1).0 ≡ true → (after_stop t.0 t.1).1.1 ≡ false
stop_quiet (none, tick) e = cc
stop_quiet (some d, tick) e = refl

elapse_due : (t : Option ℤ × Bool) → t.0 ≡ none → (after_time t.0 t.1).0 ≡ none
elapse_due (none, tick) e = refl
elapse_due (some d, tick) e = refl

elapse_quiet : (t : Option ℤ × Bool) → t.0 ≡ none → t.1 ≡ false → (after_time t.0 t.1).1 ≡ false
elapse_quiet (none, tick) e f = f
elapse_quiet (some d, tick) e f = cc

abbrev shown : Time
shown = record {
  Timer = Option ℤ × Bool;
  due = λ t. t.0;
  has_tick = λ t. t.1;
  new_timer = λ d. (some d, false);
  reset = λ d t. (some d, t.1);
  stop = λ t. after_stop t.0 t.1;
  receive = λ t. (t.0, false);
  elapse = λ t. after_time t.0 t.1;
  new_due = λ _. refl;
  new_quiet = λ _. refl;
  reset_due = λ _ _. refl;
  reset_quiet = λ _ _ _ e. e;
  stop_due = stop_due;
  stop_quiet = stop_quiet;
  receive_due = λ _. refl;
  receive_quiet = λ _. refl;
  elapse_due = elapse_due;
  elapse_quiet = elapse_quiet;
}

-- A timer that has run out, with its tick still there.
put_timer-get_timer_example :
    ((get_timer shown
        (pos 7)
        (some (after_time (put_timer shown (none, true)).0 (put_timer shown (none, true)).1))).0
      ≡ some (pos 7))
    × ((get_timer shown
          (pos 7)
          (some (after_time (put_timer shown (none, true)).0 (put_timer shown (none, true)).1))).1
        ≡ false)
    × (some (pos 7) ≡ some (pos 7))
    × (◌≡◌ {A = Bool} false false)
put_timer-get_timer_example = put_timer-get_timer shown (none, true) (pos 7)
