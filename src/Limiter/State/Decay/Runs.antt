-- ===== src/Limiter/State/Decay/Runs.antt =====
-- limiter/brr.go: where the default gain cycle takes the limit, over any calls.
use resili.Prelude.{
  ℕ, suc, ◌+◌, ◌-◌, ◌*◌, ◌%◌, ◌^◌, ◌≤◌, ◌<◌, ◌≡◌, inl, inr, refl, ap, ◌∙◌, Bool, ℤ, pos, negsuc,
  List, [], ◌∷◌, ◌≤ℤ◌, arith, sub64, eq_ℤ, Bool-cases, leb_ℤ, if◌then◌else◌,
}
use mathlib.Core.Path.{subst}
use resili.Limiter.State.{
  Limiter, acquire, done, ema, observe_rtt, on_tick, Event, acquired, finished, ticked, closed,
  stopped, handle, run,
}
use resili.Limiter.State.Rtt.{TakesBetween, ema_bounds, sub64_le}
use resili.Limiter.State.Decay.{IsBelow}
use resili.Limiter.State.Decay.Ticks.{IsSampled, IsDecaying, tick-IsDecaying}

module _ (hi : ℕ) (small : hi < 2 ^ 53) where
  average_step :
      (a : ℤ) (k : ℕ)
      → pos 1 ≤ℤ a
      → a ≤ℤ pos hi
      → 1 ≤ k
      → k ≤ hi
      → let a' = if eq_ℤ a (pos 0) then pos k else ema (pos 205) a (pos k) in
        (pos 1 ≤ℤ a') × (a' ≤ℤ pos hi)
  average_step (pos o) k low high one le =
      ground
        (arith, ema_bounds 1 hi 205 o k (omega arith) small (omega arith, omega arith) (one, le))
  average_step (negsuc o) k low high one le = absurd (omega arith)

  observe_rtt-IsSampled :
      (l : Limiter) (k : ℕ) → 1 ≤ k → k ≤ hi → IsSampled hi l → IsSampled hi (observe_rtt (pos k) l)
  unfolding observe_rtt
  observe_rtt-IsSampled l k one le s =
      let (low, high) = average_step l.rtt_ema k s.average_low s.average_high one le in
      record {
        options = s.options;
        average_low = rw s.options low;
        average_high = rw s.options high;
        least_low = ground (arith, s.least_low);
        least_high = ground (arith, s.least_high);
        alive = s.alive;
      }

  -- `Done` keeps the limit and the place in the cycle.
  record Finished (l l' : Limiter) : Type 0 where
    sampled : IsSampled hi l'
    limit : l'.limit ≡ l.limit
    place : l'.cycle_index ≡ l.cycle_index

  given_back : (l : Limiter) (i : ℤ) → IsSampled hi l → IsSampled hi (record l { inflight = i })
  given_back l i s = record {
    options = s.options;
    average_low = s.average_low;
    average_high = s.average_high;
    least_low = s.least_low;
    least_high = s.least_high;
    alive = s.alive;
  }

  done-Finished :
      (start end : ℕ) (success : Bool) (l : Limiter)
      → start + 1 ≤ end
      → end ≤ start + hi
      → end < 2 ^ 63
      → IsSampled hi l
      → Finished l (done (pos start) (pos end) success l)
  unfolding done observe_rtt
  done-Finished start end success l above below word s =
      rw (sub64_le end start (omega arith) word) (elim (Bool-cases (leb_ℤ l.inflight (pos 0))) [
        | inl empty ↦ rw empty (record { sampled = s; limit = refl; place = refl })
        | inr held ↦ rw held (elim (Bool-cases success) [
          | inl good ↦ rw good (record {
            sampled =
                observe_rtt-IsSampled (record l { inflight = sub64 l.inflight (pos 1) })
                  (end - start) (omega arith) (omega arith) (given_back l _ s);
            limit = refl;
            place = refl;
          })
          | inr bad ↦ rw bad (record { sampled = given_back l _ s; limit = refl; place = refl })
        ])
      ])

-- A call that takes between 1 and `hi` nanoseconds, or a tick; the limiter is not closed.
abbrev pub IsTraffic : ℕ → List Event → Type 0
IsTraffic hi [] = Unit
IsTraffic hi (closed ∷ es) = ⊥
IsTraffic hi (stopped ∷ es) = ⊥
IsTraffic hi (e ∷ es) = TakesBetween 1 hi e × IsTraffic hi es

abbrev pub ticks : List Event → ℕ
ticks [] = 0
ticks (ticked ∷ es) = suc (ticks es)
ticks (_ ∷ es) = ticks es

module _ (hi : ℕ) (small : hi < 2 ^ 53) where
  acquire-IsDecaying :
      (n : ℕ) (now : ℤ) (l : Limiter) → IsDecaying hi n l → IsDecaying hi n (acquire now l).0
  unfolding acquire
  acquire-IsDecaying n now l d = elim (Bool-cases (leb_ℤ l.limit l.inflight)) [
    | inl full ↦ rw full d
    | inr free ↦ rw free (record {
      sampled = given_back hi small l _ d.sampled;
      limit = d.limit;
      is_limit = d.is_limit;
      low = d.low;
      high = d.high;
      below = d.below;
    })
  ]

  done-IsDecaying :
      (n : ℕ) (start end : ℤ) (success : Bool) (l : Limiter)
      → TakesBetween 1 hi (finished start end success)
      → IsDecaying hi n l
      → IsDecaying hi n (done start end success l)
  done-IsDecaying n (pos start) (pos end) success l t d =
      let f = done-Finished hi small start end success l t.0 t.1 t.2 d.sampled in
      record {
        sampled = f.sampled;
        limit = d.limit;
        is_limit = f.limit ∙ d.is_limit;
        low = d.low;
        high = d.high;
        below = rw f.place d.below;
      }
  done-IsDecaying n (pos start) (negsuc end) success l t d = absurd t
  done-IsDecaying n (negsuc start) end success l t d = absurd t

  run-IsDecaying :
      (es : List Event) (n : ℕ) (l : Limiter)
      → IsTraffic hi es
      → IsDecaying hi n l
      → IsDecaying hi (n - ticks es) (run l es)
  unfolding run handle
  run-IsDecaying [] n l t d = subst (λ k. IsDecaying hi k l) (omega arith) d
  run-IsDecaying (acquired now ∷ es) n l t d =
      run-IsDecaying es n (acquire now l).0 t.1 (acquire-IsDecaying n now l d)
  run-IsDecaying (finished start end success ∷ es) n l t d =
      run-IsDecaying es n (done start end success l) t.1
        (done-IsDecaying n start end success l t.0 d)
  run-IsDecaying (ticked ∷ es) n l t d =
      subst (λ k. IsDecaying hi k (run (on_tick l) es)) (omega arith)
        (run-IsDecaying es (n - 1) (on_tick l) t.1 (tick-IsDecaying hi small n l d))
  run-IsDecaying (closed ∷ es) n l t d = absurd t
  run-IsDecaying (stopped ∷ es) n l t d = absurd t

last-IsBelow : (p limit : ℕ) → p < 8 → 1 ≤ limit → IsBelow 0 p limit → limit ≡ 1
last-IsBelow p limit lt low b = ground (arith, b.soon, b.raised, b.level, b.positive)

-- A limiter with the default options that has a sample, under calls that take between 1 and `hi`
-- nanoseconds each, with any number of them between two adjustments: after 8 adjustments for each
-- permit of its limit the limit is 1, whether or not the round trip time has grown. `hi` is below
-- 2 ^ 53, and the limiter is not closed.
pub limit_decays :
    (hi limit : ℕ) (es : List Event) (l : Limiter)
    → hi < 2 ^ 53
    → IsSampled hi l
    → l.limit ≡ pos limit
    → 1 ≤ limit
    → limit ≤ 10000
    → IsTraffic hi es
    → 8 * limit ≤ ticks es
    → (run l es).limit ≡ pos 1
limit_decays hi limit es l small s is_limit low high traffic many =
    d.is_limit
    ∙ ap pos (
        last-IsBelow ((run l es).cycle_index % 8) d.limit (omega arith) d.low
          (subst (λ k. IsBelow k ((run l es).cycle_index % 8) d.limit) (omega arith) d.below))
  where
    d : IsDecaying hi (8 * limit - ticks es) (run l es)
    d = run-IsDecaying hi small es (8 * limit) l traffic (record {
      sampled = s;
      limit = limit;
      is_limit = is_limit;
      low = low;
      high = high;
      below = record {
        most = limit;
        positive = low;
        soon = inr (omega arith);
        raised = λ k. omega arith;
        level = λ k. omega arith;
      };
    })
