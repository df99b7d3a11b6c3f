-- ===== src/Breaker/Concurrent.antt =====
-- breaker/breaker.go, ExecuteWithResult run by any number of goroutines. A step is one section: what a
-- goroutine does under the lock, or its accesses to the counters before or after its action.
pub mod SingleFlight
pub mod Race
pub mod Stuck
pub mod Stale
pub mod Counts
use resili.Prelude.{ℕ, ◌≡◌, ◌≢◌, Bool, true, false, ℤ, Option, update}
use resili.Errors.{Err}
use resili.Breaker.State.{
  CircuitBreaker, state_closed, count_request, count_failure, over_threshold, is_failure, trip,
  Admission, rejected, probe, passed, admit, settle,
}

-- Where a goroutine stands; `window` is the window that it has kept.
pub data Pc : Type 0 where
  idle : Pc
  fast : Pc  -- it has seen the state closed
  running : (window : ℕ) → Pc  -- its action runs, on the fast path
  checking : (window : ℕ) → Pc
  tripping : Pc
  slow : Pc  -- it has seen the state not closed, and waits for the lock
  probing : Pc  -- its action runs as the probe
  passing : Pc  -- its action runs; the state was closed when it had the lock

-- One section of one goroutine. That the state has become closed while a goroutine waited for the
-- lock of the slow path is allowed only if `late` is true.
pub data Move (late : Bool) (cb : CircuitBreaker) : Pc → CircuitBreaker → Pc → Type 0 where
  see_closed : cb.state ≡ state_closed → Move late cb idle cb fast
  count :
      (now : ℤ) {c : CircuitBreaker}
      → c ≡ count_request now cb
      → Move late cb fast c (running c.window)
  succeed :
      {window : ℕ} (err : Option Err)
      → is_failure cb err ≡ false
      → Move late cb (running window) cb (checking window)
  fail :
      {window : ℕ} (err : Option Err) {c : CircuitBreaker}
      → is_failure cb err ≡ true
      → c ≡ count_failure window cb
      → Move late cb (running window) c (checking window)
  under :
      {window : ℕ}
      → over_threshold cb (cb.windows window) ≡ false
      → Move late cb (checking window) cb idle
  over :
      {window : ℕ}
      → over_threshold cb (cb.windows window) ≡ true
      → Move late cb (checking window) cb tripping
  lock_trip : (now : ℤ) {c : CircuitBreaker} → c ≡ trip now cb → Move late cb tripping c idle
  see_other : cb.state ≢ state_closed → Move late cb idle cb slow
  reject : (now : ℤ) {c : CircuitBreaker} → admit now cb ≡ (c, rejected) → Move late cb slow c idle
  take_probe :
      (now : ℤ) {c : CircuitBreaker} → admit now cb ≡ (c, probe) → Move late cb slow c probing
  pass :
      (now : ℤ) {c : CircuitBreaker}
      → late ≡ true
      → admit now cb ≡ (c, passed)
      → Move late cb slow c passing
  end_probe :
      (err : Option Err) (now₁ now₂ : ℤ) {c : CircuitBreaker}
      → c ≡ settle err now₁ now₂ cb
      → Move late cb probing c idle
  end_pass :
      (err : Option Err) (now₁ now₂ : ℤ) {c : CircuitBreaker}
      → c ≡ settle err now₁ now₂ cb
      → Move late cb passing c idle

pub record System : Type 0 where
  pub cb : CircuitBreaker
  pub pc : ℕ → Pc

pub data Step (late : Bool) (s : System) : System → Type 0 where
  pick :
      (i : ℕ) {c : CircuitBreaker} {p : Pc}
      → Move late s.cb (s.pc i) c p
      → Step late s (record { cb = c; pc = update s.pc i p })

-- What any number of steps reach from the breaker `cb` at rest.
pub data Reach (late : Bool) (cb : CircuitBreaker) : System → Type 0 where
  start : Reach late cb (record { cb = cb; pc = λ _. idle })
  later : {s t : System} → Reach late cb s → Step late s t → Reach late cb t
