-- ===== src/Breaker/Execute/Spec/Refines.antt =====
-- breaker/breaker.go, ExecuteWithResult, with any options and over any calls, against the breaker of
-- the documentation.
use resili.Prelude.{
  ℕ, suc, ◌+◌, ◌^◌, ◌≤◌, ◌<◌, ◌≡◌, refl, ap₂, Bool, false, ℤ, pos, List, [], ◌∷◌, Option, length,
  ap, sym, ◌∙◌, arith, map,
}
use mathlib.Core.Path.{subst}
use resili.Errors.{Err}
use resili.Breaker.State.{
  CircuitBreaker, BreakerOption, default_breaker, apply_options, fresh_window, with_timeout,
  with_window, with_min_requests, with_error_threshold, with_error_classifier, new_breaker,
}
use resili.Breaker.Execute.World.{World, Call, serve}
use resili.Breaker.Execute.World as Code
use resili.Breaker.Execute.Spec as Spec
use resili.Breaker.Execute.Spec.{Config, Service, Circuit, renewed, request, failure, is_over}
use resili.Breaker.Execute.Spec.Calls.{IsTime, config, circuit_in, view, Inv, call-IsRefined}

abbrev pub AllTimely : List Call → Type 0
AllTimely [] = Unit
AllTimely (c ∷ cs) = IsTime c.now × AllTimely cs

-- What the callers get, and what the documentation can tell of the state after the calls.
abbrev pub observed : List (Option Err) × World → List (Option Err) × Service
observed (errs, w) = (errs, view w)

serve_refines :
    (cfg : Config) (n : ℕ) (cs : List Call) (w : World)
    → cfg.rate ≤ 1024
    → n + length cs < 2 ^ 52
    → ((k : ℕ) → IsTime (w.clock k))
    → AllTimely cs
    → Inv cfg n n w.cb
    → observed (serve cs w) ≡ Spec.calls cfg w.clock cs (view w)
unfolding serve Spec.calls
serve_refines cfg n [] w rate few times timely inv = refl
serve_refines cfg n (c ∷ cs) w rate few times timely inv =
    let w₁ = (Code.call c w).1 in
    let one = call-IsRefined cfg n (omega arith) rate c w (timely.0, times) inv in
    let rest : observed (serve cs w₁) ≡ Spec.calls cfg w₁.clock cs (view w₁) =
      serve_refines cfg (suc n) cs w₁ rate (omega arith) (rw one.ticks times) timely.1 one.keeps in
    ap (λ (p : List (Option Err) × Service). ((Code.call c w).0 ∷ p.0, p.1))
      (rest ∙ ap (λ clock. Spec.calls cfg clock cs (view w₁)) one.ticks)
    ∙ ap₂ (λ err s. let (errs, s') = Spec.calls cfg w.clock cs s in (err ∷ errs, s')) one.answers
        one.shows

-- The options that the package offers.
pub data Setting : Type 0 where
  timeout : (d : ℤ) → Setting
  window : (d : ℤ) → Setting
  min_requests : (n : ℕ) → Setting
  error_threshold : (scaled : ℤ) → Setting
  error_classifier : (fn : Option Err → Bool) → Setting

abbrev pub option_of : Setting → BreakerOption
option_of (timeout d) = with_timeout d
option_of (window d) = with_window d
option_of (min_requests n) = with_min_requests n
option_of (error_threshold scaled) = with_error_threshold scaled
option_of (error_classifier fn) = with_error_classifier fn

apply_options-quiet :
    (settings : List Setting) (cb : CircuitBreaker)
    → cb.half_open_in_flight ≡ false
    → IsTime cb.last_fail_time
    → let cb' = apply_options (map option_of settings) cb in
      (cb'.half_open_in_flight ≡ false) × IsTime cb'.last_fail_time
unfolding apply_options
apply_options-quiet [] cb quiet opened = (quiet, opened)
apply_options-quiet (timeout d ∷ settings) cb quiet opened =
    apply_options-quiet settings (with_timeout d cb) quiet opened
apply_options-quiet (window d ∷ settings) cb quiet opened =
    apply_options-quiet settings (with_window d cb) quiet opened
apply_options-quiet (min_requests n ∷ settings) cb quiet opened =
    apply_options-quiet settings (with_min_requests n cb) quiet opened
apply_options-quiet (error_threshold v ∷ settings) cb quiet opened =
    apply_options-quiet settings (with_error_threshold v cb) quiet opened
apply_options-quiet (error_classifier fn ∷ settings) cb quiet opened =
    apply_options-quiet settings (with_error_classifier fn cb) quiet opened

new_breaker-Inv :
    (settings : List Setting) (now₁ now₂ : ℤ) (t : ℕ)
    → let cb = new_breaker (map option_of settings) now₁ now₂ in
      cb.error_threshold ≡ pos t → IsTime now₂ → Inv (config cb t) 0 0 cb
unfolding new_breaker
new_breaker-Inv settings now₁ now₂ t e h =
    ground (arith, apply_options-quiet settings default_breaker refl (omega arith))

new_breaker-circuit :
    (settings : List Setting) (now₁ now₂ : ℤ)
    → let cb = new_breaker (map option_of settings) now₁ now₂ in
      circuit_in cb.state cb ≡ Circuit.counting (fresh_window now₂)
unfolding new_breaker
new_breaker-circuit settings now₁ now₂ = ground arith

-- A breaker with any of the package's options and a rate of at most 1, used by one goroutine at a time,
-- is the breaker of the documentation: over fewer than 2 ^ 52 calls, with the clock and the requests
-- at times that an int64 holds as nanoseconds since the epoch, the callers get the same answers, as
-- many actions are executed, the clock is read as often, and the circuit ends closed with the same
-- tally, or open since the same time.
pub new_breaker_refines :
    (settings : List Setting) (now₁ now₂ : ℤ) (t : ℕ) (cs : List Call) (w : World)
    → w.cb ≡ new_breaker (map option_of settings) now₁ now₂
    → w.cb.error_threshold ≡ pos t
    → t ≤ 1024
    → length cs < 2 ^ 52
    → IsTime now₂
    → ((k : ℕ) → IsTime (w.clock k))
    → AllTimely cs
    → observed (serve cs w)
      ≡ Spec.calls (config w.cb t) w.clock cs (record {
        circuit = Circuit.counting (fresh_window now₂);
        reads = w.reads;
        executed = w.executed;
      })
new_breaker_refines settings now₁ now₂ t cs w e thr rate few began times timely =
    serve_refines (config w.cb t) 0 cs w rate (omega arith) times timely (
      subst (λ cb. cb.error_threshold ≡ pos t → Inv (config cb t) 0 0 cb) (sym e)
        (λ h. new_breaker-Inv settings now₁ now₂ t h began) thr)
    ∙ ap
        (λ circuit.
          Spec.calls (config w.cb t) w.clock cs
            (record { circuit = circuit; reads = w.reads; executed = w.executed }))
        (rw e (new_breaker-circuit settings now₁ now₂))
