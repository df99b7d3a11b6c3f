-- ===== src/Hedge/Timers.antt =====
-- hedge/hedge.go, the pool of timers; rws/hedge.go has the same two functions for its own pool.
use resili.Prelude.{
  ◌≡◌, Bool, true, false, ℤ, Option, none, some, ◌∙◌, Bool-cases, inl, inr, if◌then◌else◌,
}

-- A *time.Timer of the package time: when it is to fire, from when it was set on, if it is, and whether
-- a tick waits in its channel; with what the package documents of its functions. `elapse` is what
-- happens to it as time passes.
pub record Time : Type 1 where
  pub Timer : Type 0
  pub due : Timer → Option ℤ
  pub has_tick : Timer → Bool
  pub new_timer : ℤ → Timer
  pub reset : ℤ → Timer → Timer
  pub stop : Timer → Bool × Timer
  pub receive : Timer → Timer  -- from t.C, in a `select` with a `default`
  pub elapse : Timer → Timer
  pub new_due : (d : ℤ) → due (new_timer d) ≡ some d
  pub new_quiet : (d : ℤ) → has_tick (new_timer d) ≡ false
  pub reset_due : (d : ℤ) (t : Timer) → due (reset d t) ≡ some d
  pub reset_quiet :
      (d : ℤ) (t : Timer) → due t ≡ none → has_tick t ≡ false → has_tick (reset d t) ≡ false
  pub stop_due : (t : Timer) → due (stop t).1 ≡ none
  pub stop_quiet : (t : Timer) → (stop t).0 ≡ true → has_tick (stop t).1 ≡ false
  pub receive_due : (t : Timer) → due (receive t) ≡ due t
  pub receive_quiet : (t : Timer) → has_tick (receive t) ≡ false
  pub elapse_due : (t : Timer) → due t ≡ none → due (elapse t) ≡ none
  pub elapse_quiet : (t : Timer) → due t ≡ none → has_tick t ≡ false → has_tick (elapse t) ≡ false

module _ (time : Time) where
  open time use {Timer, due, has_tick, new_timer, reset, stop, receive, elapse}

  -- timerPool.Get() gives a timer, or nil.
  abbrev pub get_timer : ℤ → Option Timer → Timer
  get_timer d (some t) = reset d t
  get_timer d none = new_timer d

  -- The timer as it goes back to the pool.
  abbrev pub put_timer : Timer → Timer
  put_timer t = let (stopped, t₁) = stop t in if stopped then t₁ else receive t₁

  -- It is not set, and no tick waits.
  pub record IsAtRest (t : Timer) : Type 0 where
    pub unset : due t ≡ none
    pub quiet : has_tick t ≡ false

  put_timer-IsAtRest : (t : Timer) → IsAtRest (put_timer t)
  put_timer-IsAtRest t = elim (Bool-cases (stop t).0) [
    | inl e ↦ rw e (record { unset = time.stop_due t; quiet = time.stop_quiet t e })
    | inr e ↦ rw e (record {
      unset = time.receive_due (stop t).1 ∙ time.stop_due t;
      quiet = time.receive_quiet (stop t).1;
    })
  ]

  -- However a timer was left, set or not, fired or not, received from or not: put back, and taken out
  -- of the pool again any time later, it is set to the delay of the next attempt, and no tick of its
  -- former use waits in it, just as for a new timer.
  pub put_timer-get_timer :
      (t : Timer) (d : ℤ)
      → (due (get_timer d (some (elapse (put_timer t)))) ≡ due (get_timer d none))
        × (has_tick (get_timer d (some (elapse (put_timer t)))) ≡ has_tick (get_timer d none))
        × (due (get_timer d none) ≡ some d)
        × (has_tick (get_timer d none) ≡ false)
  put_timer-get_timer t d =
      let rest = put_timer-IsAtRest t in
      let unset = time.elapse_due (put_timer t) rest.unset in
      let quiet = time.elapse_quiet (put_timer t) rest.unset rest.quiet in
      let again = time.reset_quiet d (elapse (put_timer t)) unset quiet in
      (
        rw (time.new_due d) (time.reset_due d (elapse (put_timer t))),
        rw (time.new_quiet d) again,
        time.new_due d,
        time.new_quiet d,
      )
