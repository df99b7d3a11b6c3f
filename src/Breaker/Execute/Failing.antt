-- ===== src/Breaker/Execute/Failing.antt =====
-- breaker/breaker.go, ExecuteWithResult: a closed circuit whose requests all fail.
use resili.Breaker.Execute.Closed.{count_failure-window}
use resili.Breaker.State.Trip.{over_threshold_exact}
use resili.Prelude.{
  ℕ, suc, ◌+◌, ◌*◌, ◌^◌, ◌≤◌, ◌<◌, ◌≡◌, Bool, true, ℤ, pos, List, [], ◌∷◌, Option, length, ap, sym,
  ◌∙◌, arith, leb, sub64, ltb_ℤ,
}
use mathlib.Core.Path.{subst}
use resili.Errors.{Err}
use resili.Breaker.State.{
  CircuitBreaker, state_closed, state_open, current_stats, BreakerOption, new_breaker, is_failure,
  count_request, count_failure, over_threshold, trip,
}
use resili.Breaker.Execute.{execute}
use resili.Breaker.Execute.World.{World, Call, call, calls}

-- The circuit is closed, and all of the `n` requests of the current window have failed.
pub record Failing (m n t : ℕ) (start duration : ℤ) (classify : Option Err → Bool)
    (cb : CircuitBreaker) : Type 0 where
  pub shut : cb.state ≡ state_closed
  pub requested : (current_stats cb).requests ≡ n
  pub failed : (current_stats cb).failures ≡ n
  pub began : (current_stats cb).start ≡ start
  pub least : cb.min_requests ≡ m
  pub lasts : cb.window_duration ≡ duration
  pub threshold : cb.error_threshold ≡ pos t
  pub classifies : cb.error_classifier ≡ classify

-- A call in the window that begins at `start`, and whose action fails.
abbrev pub FailsIn : ℤ → ℤ → (Option Err → Bool) → Call → Type 0
FailsIn start duration classify c =
    (ltb_ℤ (sub64 c.now start) duration ≡ true) × (classify c.err ≡ true)

mul_mono : (a b c : ℕ) → a ≤ b → a * c ≤ b * c
mul_mono a b c h = grind arith

module _ (m n t : ℕ) (start duration : ℤ) (classify : Option Err → Bool) (small : n < 2 ^ 52)
    (rate : t ≤ 1024) where
  counted :
      (c : Call) (cb : CircuitBreaker)
      → FailsIn start duration classify c
      → Failing m n t start duration classify cb
      → let cb₁ = count_request c.now cb in
        Failing m (suc n) t start duration classify (count_failure cb₁.window cb₁)
        × (is_failure cb₁ c.err ≡ true)
  unfolding count_request count_failure
  counted c cb h q =
      ground
        (arith, q.shut, q.requested, q.failed, q.began, q.least, q.lasts, q.threshold, q.classifies)

  Failing-over_threshold :
      (cb : CircuitBreaker)
      → Failing m (suc n) t start duration classify cb
      → over_threshold cb (current_stats cb) ≡ leb m (suc n)
  Failing-over_threshold cb q =
      over_threshold_exact cb (current_stats cb) t q.threshold rate (omega (arith, q.requested))
        (omega (arith, q.failed))
      ∙ ground (arith, q.requested, q.failed, q.least, mul_mono t 1024 (suc n) rate)

  pub call-Failing :
      (c : Call) (w : World)
      → FailsIn start duration classify c
      → Failing m n t start duration classify w.cb
      → (suc n < m
          → Failing m (suc n) t start duration classify (call c w).1.cb
            × ((call c w).1.reads ≡ w.reads)
            × ((call c w).1.clock ≡ w.clock)
            × ((call c w).1.executed ≡ suc w.executed))
        × (suc n ≡ m
            → ((call c w).1.cb.state ≡ state_open)
              × ((call c w).1.cb.last_fail_time ≡ w.clock w.reads)
              × ((call c w).1.reads ≡ suc w.reads)
              × ((call c w).1.clock ≡ w.clock)
              × ((call c w).1.executed ≡ suc w.executed))
  unfolding call execute trip
  call-Failing c w h q = (
    (λ lt. (
      ground (arith, q.shut, q₁, fails, over),
      ground (arith, q.shut, q₁, fails, over),
      ground (arith, q.shut, q₁, fails, over),
      ground (arith, q.shut, q₁, fails, over),
    )),
    (λ last. ground (arith, q.shut, q₁, fails, over)),
  )
    where
      cb₁ : CircuitBreaker
      cb₁ = count_request c.now w.cb

      cb₂ : CircuitBreaker
      cb₂ = count_failure cb₁.window cb₁

      q₁ : Failing m (suc n) t start duration classify cb₂
      q₁ = (counted c w.cb h q).0

      fails : is_failure cb₁ c.err ≡ true
      fails = (counted c w.cb h q).1

      over : over_threshold cb₂ (cb₂.windows cb₁.window) ≡ leb m (suc n)
      over =
          ap (λ (k : ℕ). over_threshold cb₂ (cb₂.windows k))
            (sym (count_failure-window cb₁.window cb₁))
          ∙ Failing-over_threshold cb₂ q₁

abbrev pub AllFailIn : ℤ → ℤ → (Option Err → Bool) → List Call → Type 0
AllFailIn start duration classify [] = Unit
AllFailIn start duration classify (c ∷ cs) =
    FailsIn start duration classify c × AllFailIn start duration classify cs

calls-Failing :
    (m n t : ℕ) (start duration : ℤ) (classify : Option Err → Bool) (c : Call) (cs : List Call)
    (w : World)
    → m < 2 ^ 52
    → t ≤ 1024
    → n + suc (length cs) ≡ m
    → AllFailIn start duration classify (c ∷ cs)
    → Failing m n t start duration classify w.cb
    → (calls (c ∷ cs) w).cb.state ≡ state_open
unfolding calls
calls-Failing m n t start duration classify c [] w small rate e h q =
    ((call-Failing m n t start duration classify (omega arith) rate c w h.0 q).1 (omega arith)).0
calls-Failing m n t start duration classify c (d ∷ cs) w small rate e h q =
    calls-Failing m (suc n) t start duration classify d cs (call c w).1 small rate (omega arith) h.1
      ((call-Failing m n t start duration classify (omega arith) rate c w h.0 q).0 (omega arith)).0

pub new_breaker-Failing :
    (opts : List BreakerOption) (now₁ now₂ : ℤ) (t : ℕ)
    → let cb = new_breaker opts now₁ now₂ in
      cb.error_threshold ≡ pos t
      → Failing cb.min_requests 0 t now₂ cb.window_duration cb.error_classifier cb
unfolding new_breaker
new_breaker-Failing opts now₁ now₂ t e = ground arith

-- As many failing calls as `minRequests`, all in the first window of a new breaker, open its circuit,
-- for every threshold between 0 and 1024 (a rate of 1) and every `minRequests` below 2 ^ 52.
pub calls_failing_open :
    (opts : List BreakerOption) (now₁ now₂ : ℤ) (t : ℕ) (w : World) (c : Call) (cs : List Call)
    → w.cb ≡ new_breaker opts now₁ now₂
    → w.cb.error_threshold ≡ pos t
    → t ≤ 1024
    → suc (length cs) ≡ w.cb.min_requests
    → w.cb.min_requests < 2 ^ 52
    → AllFailIn now₂ w.cb.window_duration w.cb.error_classifier (c ∷ cs)
    → (calls (c ∷ cs) w).cb.state ≡ state_open
calls_failing_open opts now₁ now₂ t w c cs e thr rate len small h =
    calls-Failing w.cb.min_requests 0 t now₂ w.cb.window_duration w.cb.error_classifier c cs w small
      rate (omega arith) h
      (subst
        (λ cb.
          cb.error_threshold ≡ pos t
          → Failing cb.min_requests 0 t now₂ cb.window_duration cb.error_classifier cb)
        (sym e) (new_breaker-Failing opts now₁ now₂ t) thr)
