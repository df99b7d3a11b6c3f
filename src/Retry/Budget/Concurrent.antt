-- ===== src/Retry/Budget/Concurrent.antt =====
-- retry/budget.go with any number of goroutines: the loads and compare-and-swaps of the loops of
-- `AllowRetry` and `Decay`, interleaved in any order.
pub mod Alone
use resili.Prelude.{
  ℕ, suc, ◌+◌, ◌/◌, ◌^◌, ◌≤◌, ◌<◌, ◌≡◌, ◌≢◌, refl, ℤ, Bool, true, false, arith, u64, update,
}
use mathlib.Core.Logic.{ite}
use native.Mathlib.Decide.{ℕ_discrete}
use resili.Retry.Budget.{Budget, allowed_retries, record_success}
use resili.Retry.Budget.Bounds.{success_limit, IsRatio, IsWithin, allowed_retries_mono}

-- Where a goroutine stands, with the values that it has loaded.
pub data Pc : Type 0 where
  idle : Pc
  allowing : Pc  -- head of the loop of `AllowRetry`
  success_read : (success : ℕ) → Pc
  both_read : (success retries : ℕ) → Pc
  halving_success : Pc  -- head of the first loop of `Decay`
  old_success : (s : ℕ) → Pc
  halving_retries : Pc  -- head of the second loop of `Decay`
  old_retries : (r : ℕ) → Pc

-- One atomic access of one goroutine; `Decay` is called only if `decays` is true. AllowRetry
-- returns false at `refuse` and true at `swap`.
pub data Move (decays : Bool) (b : Budget) : Pc → Budget → Pc → Type 0 where
  succeed : Move decays b idle (record_success b) idle
  ask : Move decays b idle b allowing
  load_success : Move decays b allowing b (success_read b.success)
  load_retries : {s : ℕ} → Move decays b (success_read s) b (both_read s b.retries)
  refuse : {s r : ℕ} → allowed_retries b.ratio s ≤ r → Move decays b (both_read s r) b idle
  swap :
      {s r : ℕ}
      → r < allowed_retries b.ratio s
      → b.retries ≡ r
      → Move decays b (both_read s r) (record b { retries = u64 (r + 1) }) idle
  lose :
      {s r : ℕ}
      → r < allowed_retries b.ratio s
      → b.retries ≢ r
      → Move decays b (both_read s r) b allowing
  start_decay : decays ≡ true → Move decays b idle b halving_success
  load_old_success : Move decays b halving_success b (old_success b.success)
  swap_success :
      {s : ℕ}
      → b.success ≡ s
      → Move decays b (old_success s) (record b { success = s / 2 }) halving_retries
  lose_success : {s : ℕ} → b.success ≢ s → Move decays b (old_success s) b halving_success
  load_old_retries : Move decays b halving_retries b (old_retries b.retries)
  swap_retries :
      {r : ℕ} → b.retries ≡ r → Move decays b (old_retries r) (record b { retries = r / 2 }) idle
  lose_retries : {r : ℕ} → b.retries ≢ r → Move decays b (old_retries r) b halving_retries

-- 1 if the access ends a call of AllowRetry with true, and 0 otherwise.
unfoldable pub grants : {decays : Bool} {b c : Budget} {p q : Pc} → Move decays b p c q → ℕ
grants (swap lt same) = 1
grants mv = 0

-- `granted` tells how many calls of AllowRetry have returned true.
pub record System : Type 0 where
  pub budget : Budget
  pub pc : ℕ → Pc
  pub granted : ℕ

pub data Step (decays : Bool) (s : System) : System → Type 0 where
  pick :
      (i : ℕ) {b : Budget} {p : Pc}
      → (mv : Move decays s.budget (s.pc i) b p)
      → Step decays s (record { budget = b; pc = update s.pc i p; granted = s.granted + grants mv })

-- What `n` steps reach from the budget `b`, with no call in progress.
pub data Reach (decays : Bool) (b : Budget) : ℕ → System → Type 0 where
  start : Reach decays b 0 (record { budget = b; pc = λ _. idle; granted = 0 })
  later : {n : ℕ} {s t : System} → Reach decays b n s → Step decays s t → Reach decays b (suc n) t

-- A goroutine in `AllowRetry` has loaded no more successes than there are, and none is in `Decay`.
abbrev IsFresh : Budget → Pc → Type 0
IsFresh b idle = Unit
IsFresh b allowing = Unit
IsFresh b (success_read s) = s ≤ b.success
IsFresh b (both_read s r) = s ≤ b.success
IsFresh b _ = ⊥

record Inv (b : Budget) (n : ℕ) (s : System) : Type 0 where
  ratio : s.budget.ratio ≡ b.ratio
  few : s.budget.success ≤ b.success + n
  within : IsWithin 0 s.budget
  counted : s.budget.retries ≡ b.retries + s.granted
  fresh : (i : ℕ) → IsFresh s.budget (s.pc i)

allowed_retries-small : (r : ℤ) (s : ℕ) → allowed_retries r s < 2 ^ 63
unfolding allowed_retries
allowed_retries-small r s = omega arith

-- What one move makes of the counters, and of what the mover has loaded.
record Counts (b : Budget) (n : ℕ) (a c : Budget) (q : Pc) (more : ℕ) : Type 0 where
  ratio : c.ratio ≡ b.ratio
  few : c.success ≤ b.success + suc n
  grows : a.success ≤ c.success
  within : IsWithin 0 c
  counted : c.retries ≡ a.retries + more
  fresh : IsFresh c q

Move-Counts :
    (b : Budget) (n : ℕ) {a c : Budget} {p q : Pc}
    → (mv : Move false a p c q) → IsRatio b.ratio
    → b.success + suc n < success_limit
    → a.ratio ≡ b.ratio
    → a.success ≤ b.success + n
    → IsWithin 0 a
    → IsFresh a p
    → Counts b n a c q (grants mv)
unfolding record_success grants
Move-Counts b n {a} succeed r small e few h f =
    let exact : u64 (a.success + 1) ≡ a.success + 1 = omega arith in
    record {
      ratio = e;
      few = omega arith;
      grows = omega arith;
      within =
          rw (exact, e)
            (omega (arith, allowed_retries_mono b.ratio a.success (a.success + 1) r, rw e at h));
      counted = omega arith;
      fresh = tt;
    }
Move-Counts b n {a} (swap {s} {r} lt g) is_ratio small e few h f = record {
  ratio = e;
  few = omega arith;
  grows = omega arith;
  within = omega (arith, allowed_retries_mono a.ratio s a.success (rw e is_ratio) (omega arith) f);
  counted = omega (arith, allowed_retries-small a.ratio s);
  fresh = tt;
}
Move-Counts b n (start_decay e) r small e' few h f = cc
Move-Counts b n mv r small e few h f = ground arith

later-IsFresh : (a c : Budget) (p : Pc) → a.success ≤ c.success → IsFresh a p → IsFresh c p
later-IsFresh a c idle le f = tt
later-IsFresh a c p le f = ground arith

Step-Inv :
    (b : Budget) (n : ℕ) {s t : System}
    → Step false s t
    → IsRatio b.ratio
    → b.success + suc n < success_limit
    → Inv b n s
    → Inv b (suc n) t
Step-Inv b n {s} (pick i {b = c} {p} mv) r small inv = record {
  ratio = m.ratio;
  few = m.few;
  within = m.within;
  counted = omega (arith, m.counted, inv.counted);
  fresh = λ j. elim (ℕ_discrete i j) as (λ d. IsFresh c (ite d p (s.pc j))) [
    | yes same ↦ m.fresh
    | no other ↦ later-IsFresh s.budget c (s.pc j) m.grows (inv.fresh j)
  ];
}
  where
    m : Counts b n s.budget c p (grants mv)
    m = Move-Counts b n mv r small inv.ratio inv.few inv.within (inv.fresh i)

Reach-Inv :
    (b : Budget) {n : ℕ} {s : System}
    → Reach false b n s
    → IsRatio b.ratio
    → IsWithin 0 b
    → b.success + n < success_limit
    → Inv b n s
Reach-Inv b start r w small = record {
  ratio = refl;
  few = omega arith;
  within = w;
  counted = omega arith;
  fresh = λ _. tt;
}
Reach-Inv b (later {n} reach st) r w small =
    Step-Inv b n st r small (Reach-Inv b reach r w (omega arith))

-- From a budget that is within what its successes pay for, with a ratio between 0 and 1000: while
-- nobody calls `Decay`, and before the product with the ratio can wrap, whatever the interleaving
-- of `AllowRetry` and `RecordSuccess`: the calls of AllowRetry that have returned true, together
-- with the retries counted at the start, are just the retries that the budget counts, and no more
-- than the successes pay for.
pub Reach-IsWithin :
    (b : Budget) {n : ℕ} {s : System}
    → Reach false b n s
    → IsRatio b.ratio
    → IsWithin 0 b
    → b.success + n < success_limit
    → (s.budget.retries ≡ b.retries + s.granted)
      × (b.retries + s.granted ≤ allowed_retries s.budget.ratio s.budget.success)
Reach-IsWithin b reach r w small =
    let inv = Reach-Inv b reach r w small in (inv.counted, omega (arith, inv.counted, inv.within))
