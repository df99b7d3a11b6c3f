-- ===== src/Limiter/Samples.antt =====
-- limiter/brr.go, observeRTT with any number of goroutines: the loads and compare-and-swaps of its two
-- loops, interleaved in any order.
pub mod Moves
pub mod InOrder
use resili.Prelude.{ℕ, ◌<◌, ◌≡◌, ◌≢◌, ℤ, pos, List, [], ◌∷◌, update, ◌≤ℤ◌, ◌<ℤ◌}
use resili.Limiter.State.{Limiter, ema}

pub data Pc : Type 0 where
  idle : Pc
  sampling : (ns : ℤ) → Pc  -- head of the first loop
  min_read : (ns min : ℤ) → Pc
  averaging : (ns : ℤ) → Pc  -- head of the second loop
  ema_read : (ns old : ℤ) → Pc

pub record Rtts : Type 0 where
  pub rtt_min : ℤ
  pub rtt_ema : ℤ

-- One atomic access of one goroutine, under the configured smoothing factor.
pub data Move (smoothing : ℤ) (m : Rtts) : Pc → Rtts → Pc → Type 0 where
  observe : (ns : ℤ) → Move smoothing m idle m (sampling ns)
  load_min : {ns : ℤ} → Move smoothing m (sampling ns) m (min_read ns m.rtt_min)
  keep_min : {ns min : ℤ} → min ≤ℤ ns → Move smoothing m (min_read ns min) m (averaging ns)
  swap_min :
      {ns min : ℤ}
      → ns <ℤ min
      → m.rtt_min ≡ min
      → Move smoothing m (min_read ns min) (record m { rtt_min = ns }) (averaging ns)
  lose_min :
      {ns min : ℤ}
      → ns <ℤ min
      → m.rtt_min ≢ min
      → Move smoothing m (min_read ns min) m (sampling ns)
  load_ema : {ns : ℤ} → Move smoothing m (averaging ns) m (ema_read ns m.rtt_ema)
  swap_zero :
      {ns : ℤ}
      → m.rtt_ema ≡ pos 0
      → Move smoothing m (ema_read ns (pos 0)) (record m { rtt_ema = ns }) idle
  lose_zero : {ns : ℤ} → m.rtt_ema ≢ pos 0 → Move smoothing m (ema_read ns (pos 0)) m (averaging ns)
  swap_ema :
      {ns old : ℤ}
      → old ≢ pos 0
      → m.rtt_ema ≡ old
      → Move smoothing m (ema_read ns old) (record m { rtt_ema = ema smoothing old ns }) idle
  lose_ema :
      {ns old : ℤ}
      → old ≢ pos 0
      → m.rtt_ema ≢ old
      → Move smoothing m (ema_read ns old) m (averaging ns)

-- `reported` are the round trips that observeRTT was called with, and `averaged` those that its second
-- loop has stored, each with the last one first.
pub record System : Type 0 where
  pub rtts : Rtts
  pub pc : ℕ → Pc
  pub reported : List ℤ
  pub averaged : List ℤ

abbrev pub report : Pc → Pc → List ℤ → List ℤ
report idle (sampling ns) samples = ns ∷ samples
report _ _ samples = samples

abbrev pub store : Pc → Pc → List ℤ → List ℤ
store (ema_read ns old) idle samples = ns ∷ samples
store _ _ samples = samples

pub data Step (n : ℕ) (smoothing : ℤ) (s : System) : System → Type 0 where
  pick :
      (i : ℕ) {m : Rtts} {p : Pc}
      → i < n
      → Move smoothing s.rtts (s.pc i) m p
      → Step n smoothing s (record {
        rtts = m;
        pc = update s.pc i p;
        reported = report (s.pc i) p s.reported;
        averaged = store (s.pc i) p s.averaged;
      })

abbrev pub rtts_of : Limiter → Rtts
rtts_of l = record { rtt_min = l.rtt_min; rtt_ema = l.rtt_ema }

-- From a limiter that nobody measures.
pub data Reach (n : ℕ) (l : Limiter) : System → Type 0 where
  start : Reach n l (record { rtts = rtts_of l; pc = λ _. idle; reported = []; averaged = [] })
  later : {s t : System} → Reach n l s → Step n l.opts.smoothing s t → Reach n l t
