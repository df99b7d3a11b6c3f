-- ===== src/Limiter/Tests.antt =====
-- limiter/: the theorems at concrete inputs.
use resili.Prelude.{
  ℕ, ◌+◌, ◌*◌, ◌/◌, ◌≤◌, ◌≡◌, refl, Bool, true, false, ℤ, pos, List, [], ◌∷◌, Option, none, some,
  arith, int64, ◌-ℤ◌, ◌≤ℤ◌, weigh, sub64, inl, ◌++◌, if◌then◌else◌, update, ◌+ℤ◌, ◌*ℤ◌,
}
use resili.Limiter.Options.{with_limits, default_options, apply_options, guard_options}
use resili.Limiter.State.{Limiter, new_limiter, Event, acquired, finished, ticked, closed, run, ema}
use resili.Limiter.State.Bounds.{IsSound, new_limiter-run}
use resili.Limiter.Permits.{Pc, holds, System, Reach, start, later, pick, Move, permits_bounded}
use resili.Limiter.State.Decay.Runs.{limit_decays}
use resili.Limiter.Permits as Permits
use resili.Limiter.Samples as Samples
use resili.Limiter.Samples.Moves.{measured}
use resili.Limiter.Samples.InOrder.{occurrences, observed_in_order}
use resili.Limiter.Execute as Execute
use resili.Limiter.Execute.Permits.{World, world_clock, limiter_cell, action_of, execute_balanced}

abbrev busy_day : List Event
busy_day =
    acquired (pos 5) ∷ finished (pos 5) (pos 25) true ∷ ticked ∷ acquired (pos 30) ∷ closed ∷ []

abbrev limiter : Limiter
limiter = new_limiter (with_limits (pos 2) (pos 9) ∷ [])

new_limiter-run_example : IsSound (pos 50) (run limiter busy_day)
new_limiter-run_example =
    new_limiter-run (with_limits (pos 2) (pos 9) ∷ []) (pos 50) busy_day (omega arith)
      (unfold new_limiter apply_options guard_options in omega arith)
      (unfold new_limiter apply_options guard_options in omega arith)

-- Two permits are out.
abbrev loaded : Limiter
loaded = record (new_limiter []) { inflight = pos 2 }

-- One goroutine of two has begun to acquire.
abbrev asking : Permits.System
asking = record {
  permits = record { limit = pos 3; inflight = pos 0 };
  pc = resili.Prelude.update (λ _. Pc.idle) 1 Pc.acquiring;
}

permits_bounded_example :
    (asking.permits.inflight ≡ pos (weigh holds 2 asking.pc))
    × (pos (weigh holds 2 asking.pc) ≤ℤ pos 4)
permits_bounded_example =
    permits_bounded 2 (pos 4) (pos 3) (pos 4) (later start (pick 1 (omega arith) Move.ask))
      (omega arith) (omega arith) (omega arith) (omega arith)

abbrev idle_world : World
idle_world = record { limiter = loaded; clock = λ k. pos (k + 50); reads = 0; executed = 0 }

execute_balanced_example :
    let (o, w') =
      Execute.execute_with_result {R = ℕ} world_clock 0 limiter_cell
        (action_of (pos 9) (7, none))
        idle_world in
    (w'.limiter.inflight ≡ pos 2) × (w'.executed ≡ 1) × (o ≡ (7, none))
unfolding new_limiter apply_options guard_options
execute_balanced_example =
    execute_balanced 0 (pos 9) (7, none) idle_world (omega arith) (omega arith)

-- Two permits, and an average that is no greater than the least round trip.
abbrev calm : Limiter
calm = record {
  opts = default_options;
  limit = pos 2;
  inflight = pos 0;
  rtt_min = pos 20;
  rtt_ema = pos 20;
  cycle_index = 0;
  stop_ch_closed = false;
  done_closed = false;
}

abbrev eight_ticks : List Event
eight_ticks = ticked ∷ ticked ∷ ticked ∷ ticked ∷ ticked ∷ ticked ∷ ticked ∷ ticked ∷ []

abbrev quiet_day : List Event
quiet_day = acquired (pos 5) ∷ finished (pos 5) (pos 25) true ∷ eight_ticks ++ eight_ticks

limit_decays_example : (run calm quiet_day).limit ≡ pos 1
limit_decays_example =
    limit_decays 30 2 quiet_day calm (omega arith)
      (record {
        options = refl;
        average_low = omega arith;
        average_high = omega arith;
        least_low = omega arith;
        least_high = omega arith;
        alive = refl;
      })
      refl (omega arith) (omega arith)
      (
        tt,
        (
          (omega arith, omega arith, omega arith),
          (
            tt,
            (
              tt,
              (
                tt,
                (tt, (tt, (tt, (tt, (tt, (tt, (tt, (tt, (tt, (tt, (tt, (tt, (tt, tt))))))))))))),
              ),
            ),
          ),
        ),
      )
      (omega arith)

-- Goroutine 1 reports a round trip of 5 and goes through both loops.
abbrev sampled : Samples.System
sampled = record {
  rtts = record { rtt_min = pos 5; rtt_ema = pos 16 };
  pc =
      update
        (update
          (update
            (update (update (λ _. Samples.Pc.idle) 1 (Samples.sampling (pos 5))) 1
              (Samples.min_read (pos 5) (pos 20)))
            1 (Samples.averaging (pos 5)))
          1 (Samples.ema_read (pos 5) (pos 20)))
        1 Samples.Pc.idle;
  reported = pos 5 ∷ [];
  averaged = pos 5 ∷ [];
}

sampled_reached : Samples.Reach 2 calm sampled
unfolding ema int64 ◌+ℤ◌ ◌-ℤ◌ ◌*ℤ◌ resili.Prelude.ℕ_discrete
sampled_reached =
    Samples.later
      (Samples.later
        (Samples.later
          (Samples.later
            (Samples.later Samples.start (Samples.pick 1 (omega arith) (Samples.observe (pos 5))))
            (Samples.pick 1 (omega arith) Samples.load_min))
          (Samples.pick 1 (omega arith) (Samples.swap_min (omega arith) refl)))
        (Samples.pick 1 (omega arith) Samples.load_ema))
      (Samples.pick 1 (omega arith) (Samples.swap_ema (λ e. absurd (ground arith)) refl))

observed_in_order_example :
    (order : List ℤ) × ((v : ℤ) → occurrences v order ≡ occurrences v (pos 5 ∷ []))
    × (pos 5 ≡ (measured order calm).rtt_min)
    × (pos 16 ≡ (measured order calm).rtt_ema)
observed_in_order_example = observed_in_order sampled_reached (λ i. ground arith)
