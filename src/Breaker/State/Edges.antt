-- ===== src/Breaker/State/Edges.antt =====
-- breaker/breaker.go: the state diagram, and that each section of ExecuteWithResult follows it.
use resili.Prelude.{
  pos, pos_part, leb, ◌&&◌, ◌*◌, ◌^◌, ◌≤◌, ◌<◌, Bool-cases, inl, inr, if◌then◌else◌, ℕ, ◌≡◌, true,
  false, ℤ, Option, ◌≤ℤ◌, sub64, arith,
}
use resili.Errors.{Err}
use resili.Breaker.State.Trip.{over_threshold_exact}
use resili.Breaker.State.{
  WindowStats, State, state_closed, state_open, state_half_open, CircuitBreaker, count_request,
  count_failure, over_threshold, trip, admit, settle, is_failure,
}

-- One section, at the time `now`, of a goroutine; `window` is the window that it has kept. The test
-- that opens the circuit is made without the lock: `loaded` is what it has loaded of its window
-- before.
pub data Section : Type 0 where
  counts_request : (now : ℤ) → Section
  counts_failure : (window : ℕ) → Section
  trips : (loaded : WindowStats) (now : ℤ) → Section
  admits : (now : ℤ) → Section
  settles : (err : Option Err) (now₁ now₂ : ℤ) → Section

unfoldable pub enter : CircuitBreaker → Section → CircuitBreaker
unfolding count_request count_failure trip admit settle
enter cb (counts_request now) = count_request now cb
enter cb (counts_failure window) = count_failure window cb
enter cb (trips loaded now) = if over_threshold cb loaded then trip now cb else cb
enter cb (admits now) = (admit now cb).0
enter cb (settles err now₁ now₂) = settle err now₁ now₂ cb

-- Enough requests, of which the failures are at least the threshold's share.
pub record IsPassed (cb : CircuitBreaker) (stats : WindowStats) : Type 0 where
  pub rate : ℕ
  pub is_rate : cb.error_threshold ≡ pos rate
  pub enough : cb.min_requests ≤ stats.requests
  pub many : rate * stats.requests ≤ stats.failures * 1024

-- The threshold is at most 1024, and the counters that are tested are below 2 ^ 53.
abbrev pub IsSmall : CircuitBreaker → Section → Type 0
IsSmall cb (trips loaded now) =
    (pos 0 ≤ℤ cb.error_threshold)
    × (cb.error_threshold ≤ℤ pos 1024)
    × (loaded.requests < 2 ^ 53)
    × (loaded.failures < 2 ^ 53)
IsSmall cb _ = Unit

over_threshold-IsPassed :
    (cb : CircuitBreaker) (stats : WindowStats)
    → pos 0 ≤ℤ cb.error_threshold
    → cb.error_threshold ≤ℤ pos 1024
    → stats.requests < 2 ^ 53
    → stats.failures < 2 ^ 53
    → over_threshold cb stats ≡ true
    → IsPassed cb stats
over_threshold-IsPassed cb stats low high r f h = record {
  rate = pos_part cb.error_threshold;
  is_rate = natural;
  enough = ground (arith, exact);
  many = ground (arith, exact);
}
  where
    natural : cb.error_threshold ≡ pos (pos_part cb.error_threshold)
    natural = ground arith

    exact : over_threshold cb stats ≡ (
        leb cb.min_requests stats.requests
        && leb (pos_part cb.error_threshold * stats.requests) (stats.failures * 1024))
    exact = over_threshold_exact cb stats (pos_part cb.error_threshold) natural (ground arith) r f

-- The arrows of the diagram, with what allows each of them.
pub data Edge (cb : CircuitBreaker) : Section → State → State → Type 0 where
  stay : {s : Section} {x : State} → Edge cb s x x
  open_up :
      {loaded : WindowStats}
      → IsPassed cb loaded
      → (now : ℤ) → Edge cb (trips loaded now) state_closed state_open
  cool_down :
      (now : ℤ)
      → cb.open_timeout ≤ℤ sub64 now cb.last_fail_time
      → Edge cb (admits now) state_open state_half_open
  reopen :
      {err : Option Err} {now₁ now₂ : ℤ}
      → is_failure cb err ≡ true
      → Edge cb (settles err now₁ now₂) state_half_open state_open
  recover :
      {err : Option Err} {now₁ now₂ : ℤ}
      → is_failure cb err ≡ false
      → Edge cb (settles err now₁ now₂) state_half_open state_closed

-- Every section keeps the state or follows an arrow of the diagram: closed to open when the
-- goroutine has found, in the window that it has kept, the minimum of requests and a rate of
-- failures of at least the threshold, open to half-open only after the cooldown, half-open to open
-- after a failed action and to closed after a successful one, and no other. The threshold lies
-- between 0 and 1024, and the counters that are tested are below 2 ^ 53.
pub enter-Edge :
    (cb : CircuitBreaker) (s : Section) → IsSmall cb s → Edge cb s cb.state (enter cb s).state
unfolding enter
enter-Edge cb (trips loaded now) (low, high, r, f) = elim (Bool-cases (over_threshold cb loaded)) [
  | inl over ↦
      let passed = over_threshold-IsPassed cb loaded low high r f over in
      rw over (grind (arith, stay, open_up passed))
  | inr under ↦ rw under stay
]
enter-Edge cb (counts_request now) h = grind (arith, stay)
enter-Edge cb (counts_failure window) h = grind (arith, stay)
enter-Edge cb (admits now) h = grind (arith, stay, cool_down)
enter-Edge cb (settles err now₁ now₂) h = grind (arith, stay, reopen, recover)
