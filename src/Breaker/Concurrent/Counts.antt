-- ===== src/Breaker/Concurrent/Counts.antt =====
-- breaker/breaker.go: the counters of the windows, with any number of goroutines.
use mathlib.Core.Logic.{ite}
use resili.Prelude.{
  ℕ, suc, ◌+◌, ◌-◌, ◌^◌, ◌≤◌, ◌<◌, ◌≡◌, refl, Bool, ◌==◌, arith, update, weigh, weigh-update,
  weigh-all, weigh-zero, weigh_mono, weight-le-weigh, if◌then◌else◌, ℕ_discrete,
}
use resili.Breaker.State.{
  CircuitBreaker, count_request, count_failure, rotate_window, trip, admit, settle,
}
use resili.Breaker.Concurrent.{
  Pc, idle, fast, running, checking, tripping, slow, probing, passing, Move, see_closed, count,
  succeed, fail, under, over, lock_trip, see_other, reject, take_probe, pass, end_probe, end_pass,
  System, pick, Reach, start, later,
}

-- Whether the action of a goroutine runs that was counted in the window `v`.
abbrev pub runs_in : ℕ → Pc → ℕ
runs_in v (running window) = if window == v then 1 else 0
runs_in v _ = 0

-- No window beyond the next one is kept.
abbrev IsKnown : CircuitBreaker → Pc → Type 0
IsKnown cb (running window) = window < cb.next_window
IsKnown cb _ = Unit

-- What a move does for the window `v`, where `k` other goroutines run in it.
record Counts (v k : ℕ) (cb c : CircuitBreaker) (p q : Pc) : Type 0 where
  bounded : (c.windows v).failures + (k + runs_in v q) ≤ (c.windows v).requests
  more : (c.windows v).requests ≤ suc (cb.windows v).requests

record Known (cb c : CircuitBreaker) (q : Pc) : Type 0 where
  window : c.window < c.next_window
  grows : cb.next_window ≤ c.next_window
  kept : IsKnown c q

Move-Known :
    {late : Bool} {cb c : CircuitBreaker} {p q : Pc}
    → Move late cb p c q
    → cb.window < cb.next_window
    → IsKnown cb p
    → Known cb c q
unfolding count_request count_failure rotate_window trip admit settle
Move-Known (see_closed e) w k = ground arith
Move-Known (count now e) w k = ground arith
Move-Known (succeed err e) w k = ground arith
Move-Known (fail err f e) w k = ground arith
Move-Known (under e) w k = ground arith
Move-Known (over e) w k = ground arith
Move-Known (lock_trip now e) w k = ground arith
Move-Known (see_other e) w k = ground arith
Move-Known (reject now e) w k = ground arith
Move-Known (take_probe now e) w k = ground arith
Move-Known (pass now l e) w k = ground arith
Move-Known (end_probe err now₁ now₂ e) w k = ground arith
Move-Known (end_pass err now₁ now₂ e) w k = ground arith

Move-Counts :
    {late : Bool} {cb c : CircuitBreaker} {p q : Pc} (v k : ℕ)
    → Move late cb p c q
    → cb.window < cb.next_window
    → IsKnown cb p
    → (cb.next_window ≤ v → k ≡ 0)
    → suc (cb.windows v).requests < 2 ^ 64
    → (cb.windows v).failures + (k + runs_in v p) ≤ (cb.windows v).requests
    → Counts v k cb c p q
unfolding count_request count_failure rotate_window trip admit settle
Move-Counts v k (see_closed e) w h alone small b = ground arith
Move-Counts v k (count now e) w h alone small b = ground arith
Move-Counts v k (succeed err e) w h alone small b = ground arith
Move-Counts v k (fail err f e) w h alone small b = ground arith
Move-Counts v k (under e) w h alone small b = ground arith
Move-Counts v k (over e) w h alone small b = ground arith
Move-Counts v k (lock_trip now e) w h alone small b = ground arith
Move-Counts v k (see_other e) w h alone small b = ground arith
Move-Counts v k (reject now e) w h alone small b = ground arith
Move-Counts v k (take_probe now e) w h alone small b = ground arith
Move-Counts v k (pass now l e) w h alone small b = ground arith
Move-Counts v k (end_probe err now₁ now₂ e) w h alone small b = ground arith
Move-Counts v k (end_pass err now₁ now₂ e) w h alone small b = ground arith

-- The number of steps of a run.
unfoldable pub steps : {late : Bool} {cb : CircuitBreaker} {s : System} → Reach late cb s → ℕ
steps start = 0
steps (later r st) = suc (steps r)

abbrev requests_in : ℕ → CircuitBreaker → ℕ
requests_in v cb = (cb.windows v).requests

-- For the window `v`, after `n` steps from `most` requests.
record Inv (v most : ℕ) (s : System) : Type 0 where
  window : s.cb.window < s.cb.next_window
  kept : (i : ℕ) → IsKnown s.cb (s.pc i)
  bounded : (n : ℕ) → (s.cb.windows v).failures + weigh (runs_in v) n s.pc ≤ requests_in v s.cb
  few : requests_in v s.cb ≤ most

unused :
    (v : ℕ) (cb : CircuitBreaker) (p : Pc) → IsKnown cb p → cb.next_window ≤ v → runs_in v p ≡ 0
unused v cb (running window) k h = ground arith
unused v cb idle k h = refl
unused v cb fast k h = refl
unused v cb (checking window) k h = refl
unused v cb tripping k h = refl
unused v cb slow k h = refl
unused v cb probing k h = refl
unused v cb passing k h = refl

IsKnown-le :
    (cb c : CircuitBreaker) (p : Pc) → cb.next_window ≤ c.next_window → IsKnown cb p → IsKnown c p
IsKnown-le cb c (running window) h k = omega (arith, k)
IsKnown-le cb c idle h k = tt
IsKnown-le cb c fast h k = tt
IsKnown-le cb c (checking window) h k = tt
IsKnown-le cb c tripping h k = tt
IsKnown-le cb c slow h k = tt
IsKnown-le cb c probing h k = tt
IsKnown-le cb c passing h k = tt

module _ {late : Bool} (v most : ℕ) (s : System) (i : ℕ) {c : CircuitBreaker} {p : Pc}
    (mv : Move late s.cb (s.pc i) c p) (inv : Inv v most s) (small : suc most < 2 ^ 64) where
  -- The other goroutines below `n` that run in the window.
  abbrev others : ℕ → ℕ
  others n = weigh (runs_in v) n s.pc - runs_in v (s.pc i)

  others-unused : (n : ℕ) → s.cb.next_window ≤ v → others n ≡ 0
  others-unused n h =
      omega (arith, weigh-zero (runs_in v) s.pc n (λ j. unused v s.cb (s.pc j) (inv.kept j) h))

  mover-Counts : (n : ℕ) → i < n → Counts v (others n) s.cb c (s.pc i) p
  mover-Counts n lt =
      Move-Counts v (others n) mv inv.window (inv.kept i) (others-unused n) (omega (arith, inv.few))
        (omega (arith, inv.bounded n, weight-le-weigh (runs_in v) s.pc lt))

  after-bounded :
      (n : ℕ)
      → i < n
      → (c.windows v).failures + weigh (runs_in v) n (update s.pc i p) ≤ requests_in v c
  after-bounded n lt = omega (
    arith,
    (mover-Counts n lt).bounded,
    weight-le-weigh (runs_in v) s.pc lt,
    weigh-update (runs_in v) s.pc p lt,
  )

  pick-Inv : Inv v (suc most) (record { cb = c; pc = update s.pc i p })
  pick-Inv = record {
    window = known.window;
    kept = λ j. elim (ℕ_discrete i j) as (λ e. IsKnown c (ite e p (s.pc j))) [
      | yes same ↦ known.kept
      | no other ↦ IsKnown-le s.cb c (s.pc j) known.grows (inv.kept j)
    ];
    bounded = λ n. omega (
      arith,
      after-bounded (n + suc i) (omega arith),
      weigh_mono (runs_in v) (update s.pc i p) n (n + suc i) (omega arith),
    );
    few = omega (arith, inv.few, (mover-Counts (suc i) (omega arith)).more);
  }
    where
      known : Known s.cb c p
      known = Move-Known mv inv.window (inv.kept i)

Reach-Inv :
    {late : Bool} {cb : CircuitBreaker} {s : System} (v : ℕ) (r : Reach late cb s)
    → cb.window < cb.next_window
    → (cb.windows v).failures ≤ requests_in v cb
    → requests_in v cb + steps r < 2 ^ 64
    → Inv v (requests_in v cb + steps r) s
unfolding steps
Reach-Inv {cb = cb} v start w b small = record {
  window = w;
  kept = λ i. tt;
  bounded = λ n. omega (arith, weigh-all (runs_in v) n idle refl);
  few = omega arith;
}
Reach-Inv {cb = cb} v (later {s = s} r (pick i mv)) w b small =
    more (omega arith) (
      pick-Inv v (requests_in v cb + steps r) s i mv (Reach-Inv v r w b (omega arith))
        (omega arith))
  where
    more : {t : System} {m n : ℕ} → m ≡ n → Inv v m t → Inv v n t
    more e inv = record {
      window = inv.window;
      kept = inv.kept;
      bounded = inv.bounded;
      few = omega (arith, inv.few);
    }

-- In every interleaving, from a breaker at rest whose windows are known and have no more failures than
-- requests, and with too few steps for a counter to wrap: for each window, old or new, the failures and
-- the goroutines below any number whose action still runs in it are together at most its requests.
pub failures_le_requests :
    {late : Bool} {cb : CircuitBreaker} {s : System} (v n : ℕ) (r : Reach late cb s)
    → cb.window < cb.next_window
    → (cb.windows v).failures ≤ (cb.windows v).requests
    → (cb.windows v).requests + steps r < 2 ^ 64
    → (s.cb.windows v).failures + weigh (runs_in v) n s.pc ≤ (s.cb.windows v).requests
failures_le_requests v n r w b small = (Reach-Inv v r w b small).bounded n
