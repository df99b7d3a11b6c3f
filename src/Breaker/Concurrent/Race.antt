-- ===== src/Breaker/Concurrent/Race.antt =====
-- breaker/breaker.go: what a goroutine does that waited for the lock of the slow path while the
-- circuit became closed. It runs its action uncounted, and if the circuit is half-open when the
-- action has ended, it settles the circuit in place of the probe.
use resili.Prelude.{ℕ, ℤ, Option, update}
use resili.Errors.{Err}
use resili.Breaker.State.{admit, settle}
use resili.Breaker.Concurrent.{probing, idle, slow, System}

module _ (s : System) (i j k : ℕ) (err : Option Err) (now₁ now₂ : ℤ) where
  -- The goroutine `k` sees a state that is not closed, `i` settles, and `k` takes the lock.
  abbrev seen : System
  seen = record { cb = s.cb; pc = update s.pc k slow }

  abbrev settled : System
  settled = record { cb = settle err now₁ now₁ s.cb; pc = update seen.pc i idle }

  abbrev doubled : System
  doubled = record { cb = (admit now₂ settled.cb).0; pc = update settled.pc k probing }
