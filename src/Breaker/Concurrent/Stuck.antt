-- ===== src/Breaker/Concurrent/Stuck.antt =====
-- breaker/breaker.go: a half-open circuit whose probe does not come back, as when its action hangs, or
-- panics and the caller recovers.
use resili.Prelude.{ℕ, ◌≡◌, ◌≢◌, Bool, true, false, arith, update}
use resili.Breaker.State.{
  CircuitBreaker, state_half_open, count_request, count_failure, trip, admit, settle,
}
use resili.Breaker.Concurrent.{
  Pc, Move, see_closed, count, succeed, fail, under, over, lock_trip, see_other, reject, take_probe,
  pass, end_probe, end_pass, System,
}
use resili.Breaker.Concurrent.SingleFlight.{is_probing, is_passing}

-- What steps of goroutines other than `i` reach from the system `s`.
pub data After (late : Bool) (i : ℕ) (s : System) : System → Type 0 where
  now : After late i s s
  next :
      {t : System}
      → After late i s t
      → (j : ℕ) → j ≢ i
      → {c : CircuitBreaker} {p : Pc} → Move late t.cb (t.pc j) c p
      → After late i s (record { cb = c; pc = update t.pc j p })

-- The circuit is half-open with its flag up, and no goroutine but `i` is there to take it down.
pub record IsHeld (i : ℕ) (s : System) : Type 0 where
  pub half_open : s.cb.state ≡ state_half_open
  pub flag_up : s.cb.half_open_in_flight ≡ true
  pub no_probe : (j : ℕ) → j ≢ i → is_probing (s.pc j) ≡ false
  pub none_passing : (j : ℕ) → j ≢ i → is_passing (s.pc j) ≡ false

record Stays (c : CircuitBreaker) (q : Pc) : Type 0 where
  half_open : c.state ≡ state_half_open
  flag_up : c.half_open_in_flight ≡ true
  no_probe : is_probing q ≡ false
  none_passing : is_passing q ≡ false

Move-Stays :
    {late : Bool} {cb c : CircuitBreaker} {p q : Pc}
    → Move late cb p c q
    → cb.state ≡ state_half_open
    → cb.half_open_in_flight ≡ true
    → is_probing p ≡ false
    → is_passing p ≡ false
    → Stays c q
unfolding count_request count_failure trip admit settle
Move-Stays (see_closed e) s f h k = ground arith
Move-Stays (count at e) s f h k = ground arith
Move-Stays (succeed err e) s f h k = ground arith
Move-Stays (fail err e g) s f h k = ground arith
Move-Stays (under e) s f h k = ground arith
Move-Stays (over e) s f h k = ground arith
Move-Stays (lock_trip at e) s f h k = ground arith
Move-Stays (see_other e) s f h k = ground arith
Move-Stays (reject at e) s f h k = ground arith
Move-Stays (take_probe at e) s f h k = ground arith
Move-Stays (pass at l e) s f h k = ground arith
Move-Stays (end_probe err now₁ now₂ e) s f h k = cc
Move-Stays (end_pass err now₁ now₂ e) s f h k = cc

move-IsHeld :
    {late : Bool} {i : ℕ} {s : System} (j : ℕ) {c : CircuitBreaker} {p : Pc}
    → j ≢ i
    → Move late s.cb (s.pc j) c p
    → IsHeld i s
    → IsHeld i (record { cb = c; pc = update s.pc j p })
move-IsHeld {s = s} j {c} {p} other mv h = record {
  half_open = kept.half_open;
  flag_up = kept.flag_up;
  no_probe = λ k n. ground (arith, kept.no_probe, h.no_probe k n);
  none_passing = λ k n. ground (arith, kept.none_passing, h.none_passing k n);
}
  where
    kept : Stays c p
    kept = Move-Stays mv h.half_open h.flag_up (h.no_probe j other) (h.none_passing j other)

-- While the action of the probe of a half-open circuit does not come back, for as long as that is and
-- in every interleaving of the others, given that none of them runs an action that it got to under
-- the lock: none of them gets to one, the circuit stays half-open with the flag up, and neither the
-- time nor the end of an action on the fast path opens or closes it.
pub lost_probe_locks :
    {late : Bool} {i : ℕ} {s t : System} → After late i s t → IsHeld i s → IsHeld i t
lost_probe_locks now h = h
lost_probe_locks (next r j other mv) h = move-IsHeld j other mv (lost_probe_locks r h)
