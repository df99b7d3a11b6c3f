-- ===== src/Breaker/Concurrent/Stale.antt =====
-- breaker/breaker.go: a goroutine whose action ends when the window that it has kept is no longer the
-- current one, as after the circuit has opened and recovered.
use resili.Prelude.{ℕ, ◌≡◌, ◌≢◌, refl, Bool, true, ℤ, Option, arith, update}
use mathlib.Core.Path.{sym, subst}
use resili.Errors.{Err}
use resili.Breaker.State.{
  state_closed, state_open, is_failure, count_failure, over_threshold, trip, current_stats,
}
use resili.Breaker.Concurrent.{
  idle, running, checking, tripping, Move, fail, over, lock_trip, System, Step, pick,
}

-- After the failure is counted, after the test, and after the locked section.
abbrev pub counted : System → ℕ → ℕ → System
counted s i v = record { cb = count_failure v s.cb; pc = update s.pc i (checking v) }

abbrev pub over_it : System → ℕ → ℕ → System
over_it s i v = record { cb = (counted s i v).cb; pc = update (counted s i v).pc i tripping }

abbrev pub tripped : System → ℕ → ℕ → ℤ → System
tripped s i v now = record {
  cb = trip now (over_it s i v).cb;
  pc = update (over_it s i v).pc i idle;
}

-- A goroutine that fails, and whose own window is then over the threshold, opens the circuit if that
-- is closed, although its window is not the current one: the counters of the current window, which
-- can be all 0, do not matter, and stay as they are.
pub stale_window_opens :
    {late : Bool} (s : System) (i v : ℕ) (err : Option Err) (now : ℤ)
    → s.pc i ≡ running v
    → v ≢ s.cb.window
    → s.cb.state ≡ state_closed
    → is_failure s.cb err ≡ true
    → over_threshold s.cb ((count_failure v s.cb).windows v) ≡ true
    → Step late s (counted s i v)
      × Step late (counted s i v) (over_it s i v)
      × Step late (over_it s i v) (tripped s i v now)
      × ((tripped s i v now).cb.state ≡ state_open)
      × (current_stats (tripped s i v now).cb ≡ current_stats s.cb)
unfolding count_failure trip over_threshold
stale_window_opens {late} s i v err now at old closed failed many = (
  pick i (
      subst (λ p. Move late s.cb p (count_failure v s.cb) (checking v)) (sym at)
        (fail err failed refl)),
  pick i (
      subst (λ p. Move late (counted s i v).cb p (counted s i v).cb tripping) (ground arith)
        (over {window = v} many)),
  pick i (
      subst (λ p. Move late (over_it s i v).cb p (trip now (over_it s i v).cb) idle) (ground arith)
        (lock_trip now refl)),
  ground arith,
  ground arith,
)
