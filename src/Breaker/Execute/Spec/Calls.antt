-- ===== src/Breaker/Execute/Spec/Calls.antt =====
-- breaker/breaker.go, ExecuteWithResult, call by call: the heap of windows, the mirrored counters and
-- the flag against one tally, and the wrapping arithmetic against plain integers.
use resili.Breaker.State.Trip.{over_threshold_exact}
use resili.Prelude.{
  ℕ, suc, ◌*◌, ◌^◌, ◌≤◌, ◌<◌, ◌≡◌, refl, false, ℤ, pos, negsuc, Option, ap, ◌∙◌, arith, leb, ◌&&◌,
  sub64, ◌-ℤ◌, ◌⊎◌, inl, inr, sub64_pos, if◌then◌else◌,
}
use resili.Errors.{Err}
use resili.Breaker.State.{
  CircuitBreaker, State, state_closed, state_open, state_half_open, current_stats, is_failure,
  count_request, count_failure, over_threshold, trip, admit, settle,
}
use resili.Breaker.Execute.{execute}
use resili.Breaker.Execute.World.{World, Call, serve}
use resili.Breaker.Execute.World as Code
use resili.Breaker.Execute.Spec as Spec
use resili.Breaker.Execute.Spec.{Config, Service, Circuit, renewed, request, failure, is_over}

-- A time after the epoch that an int64 holds.
abbrev pub IsTime : ℤ → Type 0
IsTime (pos n) = n < 2 ^ 63
IsTime (negsuc n) = ⊥

sub64_time : (a b : ℤ) → IsTime a → IsTime b → sub64 a b ≡ a -ℤ b
unfolding ◌-ℤ◌
sub64_time (pos a) (pos b) ha hb = sub64_pos a b ha hb ∙ ground arith
sub64_time (pos a) (negsuc b) ha hb = elim hb [ ]
sub64_time (negsuc a) b ha hb = elim ha [ ]

abbrev pub config : CircuitBreaker → ℕ → Config
config cb t = record {
  classify = cb.error_classifier;
  cooldown = cb.open_timeout;
  window = cb.window_duration;
  least = cb.min_requests;
  rate = t;
}

abbrev pub circuit_in : State → CircuitBreaker → Circuit
circuit_in state_closed cb = Circuit.counting (current_stats cb)
circuit_in _ cb = Circuit.refusing cb.last_fail_time

-- What the documentation can tell of the code's state.
abbrev pub view : World → Service
view w = record { circuit = circuit_in w.cb.state w.cb; reads = w.reads; executed = w.executed }

-- The circuit as it is between two calls, and on the fast path: its window has counted at most `n`
-- requests and `m` failures.
pub record Inv (cfg : Config) (n m : ℕ) (cb : CircuitBreaker) : Type 0 where
  pub classifies : cb.error_classifier ≡ cfg.classify
  pub cools : cb.open_timeout ≡ cfg.cooldown
  pub lasts : cb.window_duration ≡ cfg.window
  pub least : cb.min_requests ≡ cfg.least
  pub threshold : cb.error_threshold ≡ pos cfg.rate
  pub quiet : cb.half_open_in_flight ≡ false
  pub settled : (cb.state ≡ state_half_open) → ⊥
  pub started : IsTime (current_stats cb).start
  pub opened : IsTime cb.last_fail_time
  pub asked : (current_stats cb).requests ≤ n
  pub failed : (current_stats cb).failures ≤ m

abbrev pub IsTimely : Call → World → Type 0
IsTimely c w = IsTime c.now × ((k : ℕ) → IsTime (w.clock k))

-- One call of the code is one call of the documented breaker.
pub record IsRefined (cfg : Config) (n : ℕ) (c : Call) (w : World) : Type 0 where
  pub answers : (Code.call c w).0 ≡ (Spec.call cfg w.clock c (view w)).0
  pub shows : view (Code.call c w).1 ≡ (Spec.call cfg w.clock c (view w)).1
  pub keeps : Inv cfg (suc n) (suc n) (Code.call c w).1.cb
  pub ticks : (Code.call c w).1.clock ≡ w.clock

State-cases : (s : State) → (s ≡ state_closed) ⊎ ((s ≡ state_open) ⊎ (s ≡ state_half_open))
State-cases state_closed = inl refl
State-cases state_open = inr (inl refl)
State-cases state_half_open = inr (inr refl)

module _ (cfg : Config) (n : ℕ) (small : n < 2 ^ 52) (rate : cfg.rate ≤ 1024) where
  count_request_refines :
      (clock : ℕ → ℤ) (now : ℤ) (cb : CircuitBreaker)
      → IsTime now
      → Inv cfg n n cb
      → current_stats (count_request now cb)
        ≡ request cfg clock (renewed cfg clock now (current_stats cb))
  unfolding count_request
  count_request_refines clock now cb h inv =
      ground (arith, inv.lasts, inv.asked, sub64_time now (current_stats cb).start h inv.started)

  count_request-Inv :
      (now : ℤ) (cb : CircuitBreaker)
      → IsTime now
      → Inv cfg n n cb
      → Inv cfg (suc n) n (count_request now cb)
  unfolding count_request
  count_request-Inv now cb h inv = ground (arith, inv.asked, inv.failed)

  count_request-state : (now : ℤ) (cb : CircuitBreaker) → (count_request now cb).state ≡ cb.state
  unfolding count_request
  count_request-state now cb = ground arith

  count_failure_refines :
      (clock : ℕ → ℤ) (err : Option Err) (cb : CircuitBreaker)
      → Inv cfg (suc n) n cb
      → let cb' = if is_failure cb err then count_failure cb.window cb else cb in
        (current_stats cb' ≡ failure cfg clock err (current_stats cb))
        × Inv cfg (suc n) (suc n) cb'
        × (cb'.window ≡ cb.window)
        × (cb'.state ≡ cb.state)
  unfolding count_failure
  count_failure_refines clock err cb inv = (
    ground (arith, inv.classifies, inv.failed),
    ground (arith, inv.asked, inv.failed),
    ground arith,
    ground arith,
  )

  over_threshold_refines :
      (clock : ℕ → ℤ) (cb : CircuitBreaker)
      → Inv cfg (suc n) (suc n) cb
      → over_threshold cb (current_stats cb) ≡ is_over cfg clock (current_stats cb)
  over_threshold_refines clock cb inv =
      over_threshold_exact cb (current_stats cb) cfg.rate inv.threshold rate
        (omega (arith, inv.asked)) (omega (arith, inv.failed))
      ∙ ap
          (λ (m : ℕ).
            leb m (current_stats cb).requests
            && leb (cfg.rate * (current_stats cb).requests) ((current_stats cb).failures * 1024))
          inv.least

  fast-IsRefined :
      (c : Call) (w : World)
      → w.cb.state ≡ state_closed
      → IsTimely c w
      → Inv cfg n n w.cb
      → IsRefined cfg n c w
  unfolding Code.call Spec.call execute trip
  fast-IsRefined c w shut t inv = record {
    answers = ground (arith, shut);
    shows = ground (arith, shut, asked, failed, same, still, kept, over);
    keeps = ground (arith, shut, same, still, kept, over, q₂, t.1 w.reads);
    ticks = ground (arith, shut);
  }
    where
      cb₁ : CircuitBreaker
      cb₁ = count_request c.now w.cb

      q₁ : Inv cfg (suc n) n cb₁
      q₁ = count_request-Inv c.now w.cb t.0 inv

      kept : cb₁.state ≡ w.cb.state
      kept = count_request-state c.now w.cb

      asked :
          current_stats cb₁ ≡ request cfg w.clock (renewed cfg w.clock c.now (current_stats w.cb))
      asked = count_request_refines w.clock c.now w.cb t.0 inv

      cb₂ : CircuitBreaker
      cb₂ = if is_failure cb₁ c.err then count_failure cb₁.window cb₁ else cb₁

      failed : current_stats cb₂ ≡ failure cfg w.clock c.err (current_stats cb₁)
      failed = (count_failure_refines w.clock c.err cb₁ q₁).0

      q₂ : Inv cfg (suc n) (suc n) cb₂
      q₂ = (count_failure_refines w.clock c.err cb₁ q₁).1

      same : cb₂.window ≡ cb₁.window
      same = (count_failure_refines w.clock c.err cb₁ q₁).2

      still : cb₂.state ≡ cb₁.state
      still = (count_failure_refines w.clock c.err cb₁ q₁).3

      over : over_threshold cb₂ (current_stats cb₂) ≡ is_over cfg w.clock (current_stats cb₂)
      over = over_threshold_refines w.clock cb₂ q₂

  slow-IsRefined :
      (c : Call) (w : World)
      → w.cb.state ≡ state_open
      → IsTimely c w
      → Inv cfg n n w.cb
      → IsRefined cfg n c w
  unfolding Code.call Spec.call execute admit settle
  slow-IsRefined c w shut t inv = record {
    answers = ground (arith, shut, inv, cool);
    shows = ground (arith, shut, inv, cool);
    keeps =
        ground (arith, shut, inv, cool, t.1 w.reads, t.1 (suc w.reads), t.1 (suc (suc w.reads)));
    ticks = ground (arith, shut, inv, cool);
  }
    where
      cool : sub64 (w.clock w.reads) w.cb.last_fail_time ≡ w.clock w.reads -ℤ w.cb.last_fail_time
      cool = sub64_time (w.clock w.reads) w.cb.last_fail_time (t.1 w.reads) inv.opened

  pub call-IsRefined :
      (c : Call) (w : World) → IsTimely c w → Inv cfg n n w.cb → IsRefined cfg n c w
  call-IsRefined c w t inv = elim (State-cases w.cb.state) [
    | inl shut ↦ fast-IsRefined c w shut t inv
    | inr (inl up) ↦ slow-IsRefined c w up t inv
    | inr (inr half) ↦ absurd (inv.settled half)
  ]
