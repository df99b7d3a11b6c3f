-- ===== src/Retry/Budget.antt =====
-- retry/budget.go: the retry budget, each method as one uninterrupted call.
pub mod Bounds
pub mod Granted
pub mod Concurrent
use resili.Prelude.{
  ℕ, ◌+◌, ◌-◌, ◌*◌, ◌/◌, ◌%◌, ◌^◌, ◌≤◌, ◌≡◌, Bool, true, false, not, ◌&&◌, ℤ, pos, negsuc, u64, leb,
  ◌≤ℤ◌, if◌then◌else◌,
}

pub record Budget : Type 0 where
  pub success : ℕ  -- atomic.Uint64
  pub retries : ℕ  -- atomic.Uint64
  pub ratio : ℤ  -- int64, scaled by 1000

-- The float64 operations of `NewBudget`. A ratio in (0, 1] times 1000, truncated, is in 0..1000.
pub record Float64 : Type 1 where
  pub Float : Type 0
  pub is_pos : Float → Bool
  pub at_most_one : Float → Bool
  pub per_mille : Float → ℤ
  pub fifth : Float
  pub fifth_pos : is_pos fifth ≡ true
  pub fifth_at_most_one : at_most_one fifth ≡ true
  pub per_mille_range :
      (x : Float)
      → is_pos x ≡ true
      → at_most_one x ≡ true
      → (pos 0 ≤ℤ per_mille x) × (per_mille x ≤ℤ pos 1000)

module _ (fl : Float64) where
  open fl use {Float, is_pos, at_most_one, per_mille, fifth}

  unfoldable pub new_budget : Float → Budget
  new_budget ratio =
      let r = if not (is_pos ratio && at_most_one ratio) then fifth else ratio in
      record { success = 0; retries = 0; ratio = per_mille r }

-- uint64(b.ratio)
abbrev pub to_uint64 : ℤ → ℕ
to_uint64 (pos n) = n % 2 ^ 64
to_uint64 (negsuc n) = 2 ^ 64 - 1 - n % 2 ^ 64

-- The retries that `successes` pay for.
unfoldable pub allowed_retries : ℤ → ℕ → ℕ
allowed_retries ratio successes = u64 (successes * to_uint64 ratio) / 1000

unfoldable pub record_success : Budget → Budget
record_success b = record b { success = u64 (b.success + 1) }

unfoldable pub allow_retry : Budget → Budget × Bool
allow_retry b =
    if leb (allowed_retries b.ratio b.success) b.retries
    then (b, false)
    else (record b { retries = u64 (b.retries + 1) }, true)

unfoldable pub decay : Budget → Budget
decay b = record b { success = b.success / 2; retries = b.retries / 2 }
