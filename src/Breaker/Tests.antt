-- ===== src/Breaker/Tests.antt =====
-- breaker/: the theorems at concrete inputs.
use resili.Prelude.{
  weigh, ◌≤◌, ℕ, ◌+◌, ◌≡◌, refl, Bool, true, false, ℤ, pos, List, [], ◌∷◌, Option, some, arith,
  int64, ◌-ℤ◌, ◌*ℤ◌, length, update, ◌&&◌, leb, ◌*◌, if◌then◌else◌,
}
use resili.Errors.{Err, foreign, circuit_open}
use resili.Breaker.State.{
  CircuitBreaker, WindowStats, state_closed, state_open, state_half_open, with_min_requests,
  new_breaker, apply_options, default_breaker, fresh_window, over_threshold, count_request,
  count_failure, admit, current_stats,
}
use resili.Breaker.State.Edges.{Edge, trips, enter, enter-Edge}
use resili.Breaker.Execute.World.{World, Call, call, calls}
use resili.Breaker.Execute.Failing.{calls_failing_open}
use resili.Breaker.Execute.World.{serve}
use resili.Breaker.Execute.Spec.{Service, refusing}
use resili.Breaker.Execute.Spec.Refines.{observed, min_requests, new_breaker_refines}
use resili.Breaker.Execute.Recovery.{probe_decides}
use resili.Breaker.Concurrent.{
  Pc, idle, probing, see_closed, count, fail, see_other, take_probe, System, Step, pick, Reach,
  start, later,
}
use resili.Breaker.Concurrent.SingleFlight.{single_probe}
use resili.Breaker.Concurrent.Stuck.{After, now, next, IsHeld, lost_probe_locks}
use resili.Breaker.Concurrent.Stale.{counted, over_it, tripped, stale_window_opens}
use resili.Breaker.Concurrent.Counts.{runs_in, steps, failures_le_requests}

abbrev failure : Option Err
failure = some (foreign 7)

-- A breaker that opens after two failures.
abbrev small : CircuitBreaker
small = new_breaker (with_min_requests 2 ∷ []) (pos 0) (pos 0)

abbrev world_of : CircuitBreaker → World
world_of cb = record { cb = cb; clock = λ k. pos (k + 100); reads = 0; executed = 0 }

abbrev fails_at : ℕ → Call
fails_at n = record { now = pos n; err = failure }

calls_failing_open_example :
    (calls (fails_at 1 ∷ fails_at 2 ∷ []) (world_of small)).cb.state ≡ state_open
unfolding new_breaker apply_options int64 ◌-ℤ◌
calls_failing_open_example =
    calls_failing_open (with_min_requests 2 ∷ []) (pos 0) (pos 0) 512 (world_of small) (fails_at 1)
      (fails_at 2 ∷ []) refl refl (omega arith) refl (omega arith)
      ((refl, refl), ((refl, refl), tt))

abbrev stopped : World
stopped = record (world_of small) { clock = λ k. pos 100 }

-- The third call comes while the circuit that the first two have opened cools down.
new_breaker_refines_example :
    observed (serve (fails_at 1 ∷ fails_at 2 ∷ fails_at 3 ∷ []) stopped) ≡ (
      failure ∷ failure ∷ some circuit_open ∷ [],
      record { circuit = refusing (pos 100); reads = 2; executed = 2 },
    )
unfolding new_breaker apply_options int64 ◌-ℤ◌ resili.Breaker.Execute.Spec.calls
    resili.Breaker.Execute.Spec.call
new_breaker_refines_example =
    new_breaker_refines (min_requests 2 ∷ []) (pos 0) (pos 0) 512
      (fails_at 1 ∷ fails_at 2 ∷ fails_at 3 ∷ []) stopped refl refl (omega arith) (omega arith)
      (omega arith) (λ k. omega arith) (omega arith, (omega arith, (omega arith, tt)))

abbrev opened : CircuitBreaker
opened = record default_breaker { state = state_open; open_timeout = pos 50 }

probe_decides_example :
    let w = world_of opened in
    let w' = (call (fails_at 1) w).1 in
    ((call (fails_at 1) w).0 ≡ failure)
    × (w'.executed ≡ 1)
    × (w'.cb.half_open_in_flight ≡ false)
    × (w'.cb.state ≡ state_open)
    × (w'.cb.last_fail_time ≡ pos 101)
    × (current_stats w'.cb ≡ fresh_window (pos 0))
unfolding int64 ◌-ℤ◌
probe_decides_example = probe_decides (fails_at 1) (world_of opened) refl (omega arith) refl

abbrev busy : WindowStats
busy = record { start = pos 0; requests = 30; failures = 20 }

enter-Edge_example :
    Edge default_breaker
      (trips busy (pos 100))
      state_closed
      (enter default_breaker (trips busy (pos 100))).state
enter-Edge_example = enter-Edge default_breaker (trips busy (pos 100)) (omega arith)

-- One goroutine probes the open circuit after its cooldown.
abbrev probed : System
probed = record {
  cb = (admit (pos 100) opened).0;
  pc = update (update (λ _. idle) 0 Pc.slow) 0 probing;
}

probed_reached : Reach false opened probed
unfolding admit int64 ◌-ℤ◌ resili.Prelude.ℕ_discrete
probed_reached =
    later (later start (pick 0 (see_other (λ e. cc)))) (pick 0 (take_probe (pos 100) refl))

single_probe_example :
    (◌≡◌ {A = ℕ} 0 0) × (probed.cb.half_open_in_flight ≡ true) × (probed.cb.state ≡ state_half_open)
unfolding resili.Prelude.ℕ_discrete
single_probe_example = single_probe opened 0 0 probed_reached refl refl refl

-- Another goroutine sees that the circuit is not closed.
abbrev seen : System
seen = record { cb = probed.cb; pc = update probed.pc 1 Pc.slow }

seen-After : After false 0 probed seen
unfolding admit int64 ◌-ℤ◌ resili.Prelude.ℕ_discrete
seen-After = next now 1 (λ e. absurd (omega arith)) (see_other (λ e. cc))

probed-IsHeld : IsHeld 0 probed
unfolding admit int64 ◌-ℤ◌
probed-IsHeld = record {
  half_open = refl;
  flag_up = refl;
  no_probe = λ j n. ground arith;
  none_passing = λ j n. ground arith;
}

lost_probe_locks_example : IsHeld 0 seen
lost_probe_locks_example = lost_probe_locks seen-After probed-IsHeld

abbrev cooled : CircuitBreaker
cooled = record default_breaker { state = state_open; min_requests = 1; open_timeout = pos 5 }

-- The circuit has recovered, with a fresh window 1; goroutine 0 still runs with window 0.
abbrev recovered : CircuitBreaker
recovered = record default_breaker {
  windows = update (λ _. fresh_window (pos 0)) 0 busy;
  window = 1;
  next_window = 2;
}

abbrev left_behind : System
left_behind = record { cb = recovered; pc = update (λ _. idle) 0 (Pc.running 0) }

stale_window_opens_example :
    Step false left_behind (counted left_behind 0 0)
    × Step false (counted left_behind 0 0) (over_it left_behind 0 0)
    × Step false (over_it left_behind 0 0) (tripped left_behind 0 0 (pos 9))
    × ((tripped left_behind 0 0 (pos 9)).cb.state ≡ state_open)
    × (current_stats (tripped left_behind 0 0 (pos 9)).cb ≡ fresh_window (pos 0))
unfolding over_threshold resili.Breaker.State.count_failure int64 ◌*ℤ◌ resili.Prelude.ℕ_discrete
stale_window_opens_example =
    stale_window_opens left_behind 0 0 failure (pos 9) refl (λ e. absurd (omega arith)) refl refl
      refl

-- Two goroutines have been counted, and one of them has failed.
abbrev asked : CircuitBreaker
asked = count_request (pos 9) (count_request (pos 8) (record default_breaker { next_window = 1 }))

abbrev half_done : System
half_done = record {
  cb = count_failure 0 asked;
  pc =
      update
        (update (update (update (update (λ _. idle) 0 Pc.fast) 1 Pc.fast) 0 (Pc.running 0)) 1
          (Pc.running 0))
        0 (Pc.checking 0);
}

half_done_reached : Reach false (record default_breaker { next_window = 1 }) half_done
unfolding count_request resili.Breaker.State.rotate_window int64 ◌-ℤ◌ resili.Prelude.ℕ_discrete
half_done_reached =
    later
      (later
        (later (later (later start (pick 0 (see_closed refl))) (pick 1 (see_closed refl)))
          (pick 0 (count (pos 8) refl)))
        (pick 1 (count (pos 9) refl)))
      (pick 0 (fail {window = 0} failure refl refl))

failures_le_requests_example :
    (half_done.cb.windows 0).failures + weigh (runs_in 0) 2 half_done.pc
    ≤ (half_done.cb.windows 0).requests
unfolding steps half_done_reached
failures_le_requests_example =
    failures_le_requests 0 2 half_done_reached (omega arith) (omega arith) (omega arith)
