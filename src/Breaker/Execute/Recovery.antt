-- ===== src/Breaker/Execute/Recovery.antt =====
-- breaker/breaker.go, ExecuteWithResult: an open circuit, its cooldown and its probe.
use resili.Prelude.{suc, ◌≡◌, false, some, ◌≤ℤ◌, ◌<ℤ◌, arith, sub64, if◌then◌else◌}
use resili.Errors.{circuit_open}
use resili.Breaker.State.{
  state_closed, state_open, current_stats, is_failure, fresh_window, admit, settle,
}
use resili.Breaker.Execute.{execute}
use resili.Breaker.Execute.World.{World, Call, call}

-- While the cooldown of the open circuit has not passed, a call is refused with ErrCircuitOpen. It
-- reads the clock once, and changes nothing else: no action is executed, no counter moves.
pub open_rejects :
    (c : Call) (w : World)
    → w.cb.state ≡ state_open
    → sub64 (w.clock w.reads) w.cb.last_fail_time <ℤ w.cb.open_timeout
    → call c w ≡ (some circuit_open, record w { reads = suc w.reads })
unfolding call execute admit
open_rejects c w shut early = ground arith

-- Once the cooldown has passed and no probe is in flight, a call executes its action and returns its
-- error. A failed action opens the circuit anew, from the time of the clock then; a successful one
-- closes it with an empty window. Either way no probe is left in flight.
pub probe_decides :
    (c : Call) (w : World)
    → w.cb.state ≡ state_open
    → w.cb.open_timeout ≤ℤ sub64 (w.clock w.reads) w.cb.last_fail_time
    → w.cb.half_open_in_flight ≡ false
    → let w' = (call c w).1 in
      ((call c w).0 ≡ c.err)
      × (w'.executed ≡ suc w.executed)
      × (w'.cb.half_open_in_flight ≡ false)
      × (w'.cb.state ≡ (if is_failure w.cb c.err then state_open else state_closed))
      × (w'.cb.last_fail_time
          ≡ (if is_failure w.cb c.err then w.clock (suc w.reads) else w.cb.last_fail_time))
      × (current_stats w'.cb ≡ (
          if is_failure w.cb c.err
          then current_stats w.cb
          else fresh_window (w.clock (suc (suc w.reads)))))
unfolding call execute admit settle
probe_decides c w shut cool quiet = ground arith
