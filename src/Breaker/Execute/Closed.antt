-- ===== src/Breaker/Execute/Closed.antt =====
-- breaker/breaker.go, ExecuteWithResult: a closed circuit with few requests.
use resili.Prelude.{ℕ, suc, ◌+◌, ◌≤◌, ◌<◌, ◌≡◌, refl, false, ℤ, List, [], ◌∷◌, length, arith}
use resili.Breaker.State.{
  CircuitBreaker, state_closed, current_stats, BreakerOption, new_breaker, count_request,
  count_failure, over_threshold,
}
use resili.Breaker.Execute.{execute}
use resili.Breaker.Execute.World.{World, Call, call, calls}

-- The circuit is closed after at most `n` requests.
record Quiet (m n : ℕ) (cb : CircuitBreaker) : Type 0 where
  shut : cb.state ≡ state_closed
  few : (current_stats cb).requests ≤ n
  least : cb.min_requests ≡ m

count_request-Quiet :
    (m n : ℕ) (now : ℤ) (cb : CircuitBreaker)
    → Quiet m n cb
    → Quiet m (suc n) (count_request now cb)
unfolding count_request
count_request-Quiet m n now cb q = ground (arith, q.few)

count_failure-Quiet :
    (m n window : ℕ) (cb : CircuitBreaker) → Quiet m n cb → Quiet m n (count_failure window cb)
unfolding count_failure
count_failure-Quiet m n window cb q = ground (arith, q.few)

Quiet-over_threshold :
    (m n : ℕ) (cb : CircuitBreaker)
    → n < m
    → Quiet m n cb
    → over_threshold cb (current_stats cb) ≡ false
unfolding over_threshold
Quiet-over_threshold m n cb lt q = ground (arith, q.few)

pub count_failure-window :
    (window : ℕ) (cb : CircuitBreaker) → (count_failure window cb).window ≡ cb.window
unfolding count_failure
count_failure-window window cb = refl

call-Quiet :
    (m n : ℕ) (c : Call) (w : World)
    → suc n < m
    → Quiet m n w.cb
    → Quiet m (suc n) (call c w).1.cb × ((call c w).1.executed ≡ suc w.executed)
unfolding call execute
call-Quiet m n c w lt q = ground (
  arith,
  q₁,
  count_failure-window cb₁.window cb₁,
  count_failure-Quiet m (suc n) cb₁.window cb₁ q₁,
  Quiet-over_threshold m (suc n) cb₁ lt q₁,
  Quiet-over_threshold m (suc n) (count_failure cb₁.window cb₁) lt
      (count_failure-Quiet m (suc n) cb₁.window cb₁ q₁),
)
  where
    cb₁ : CircuitBreaker
    cb₁ = count_request c.now w.cb

    q₁ : Quiet m (suc n) cb₁
    q₁ = count_request-Quiet m n c.now w.cb q

calls-Quiet :
    (m n : ℕ) (cs : List Call) (w : World)
    → n + length cs < m
    → Quiet m n w.cb
    → ((calls cs w).cb.state ≡ state_closed) × ((calls cs w).executed ≡ w.executed + length cs)
unfolding calls
calls-Quiet m n [] w lt q = (q.shut, omega arith)
calls-Quiet m n (c ∷ cs) w lt q =
    let (q₁, more) = call-Quiet m n c w (omega arith) q in
    let (shut, all) = calls-Quiet m (suc n) cs (call c w).1 (omega arith) q₁ in
    (shut, omega (arith, all, more))

new_breaker-Quiet :
    (opts : List BreakerOption) (now₁ now₂ : ℤ)
    → Quiet (new_breaker opts now₁ now₂).min_requests 0 (new_breaker opts now₁ now₂)
unfolding new_breaker
new_breaker-Quiet opts now₁ now₂ = ground arith

-- With fewer calls than `minRequests` on a new breaker, whatever its options, the requests' times and
-- the actions' errors, the circuit stays closed and every action is executed.
pub calls_below_minimum :
    (opts : List BreakerOption) (now₁ now₂ : ℤ) (w : World) (cs : List Call)
    → w.cb ≡ new_breaker opts now₁ now₂
    → length cs < (new_breaker opts now₁ now₂).min_requests
    → ((calls cs w).cb.state ≡ state_closed) × ((calls cs w).executed ≡ w.executed + length cs)
calls_below_minimum opts now₁ now₂ w cs e lt =
    calls-Quiet (new_breaker opts now₁ now₂).min_requests 0 cs w (omega arith)
      (rw e (new_breaker-Quiet opts now₁ now₂))
