-- ===== src/Retry/Budget/Bounds.antt =====
-- Bounds on the budget of retry/budget.go: what a ratio may be, what a call may spend.
use resili.Prelude.{
  ℕ, suc, ◌+◌, ◌*◌, ◌/◌, ◌%◌, ◌^◌, ◌≤◌, ◌<◌, ◌≡◌, true, false, ℤ, pos, negsuc, ◌≤ℤ◌, arith, ◌↔◌, ap,
  ◌∙◌, List, [], ◌∷◌, length, u64,
}
use resili.Retry.Budget.{
  Budget, Float64, new_budget, allowed_retries, record_success, allow_retry, decay,
}

-- The successes below which `success * ratio` does not wrap.
abbrev pub success_limit : ℕ
success_limit = 2 ^ 54

abbrev pub IsRatio : ℤ → Type 0
IsRatio r = (pos 0 ≤ℤ r) × (r ≤ℤ pos 1000)

-- The ratio of a new budget lies between 0 and 1000 per mille, whatever was asked for.
pub new_budget-ratio : (fl : Float64) (x : fl.Float) → IsRatio (new_budget fl x).ratio
unfolding new_budget
new_budget-ratio fl x =
    ground
      (arith, fl.fifth_pos, fl.fifth_at_most_one, fl.per_mille_range x, fl.per_mille_range fl.fifth)

mul_mono : (a b c : ℕ) → a ≤ b → a * c ≤ b * c
mul_mono a b c h = grind arith

mul_small : (a c : ℕ) → a < success_limit → c ≤ 1000 → a * c < 2 ^ 64
mul_small a c h k = grind (arith, mul_mono a success_limit c)

pub allowed_retries_exact :
    (r s : ℕ) → r ≤ 1000 → s < success_limit → allowed_retries (pos r) s ≡ s * r / 1000
unfolding allowed_retries
allowed_retries_exact r s h k =
    let e : r % 2 ^ 64 ≡ r = omega arith in rw e (omega (arith, mul_small s r k h))

pub allowed_retries_mono :
    (r : ℤ) (s t : ℕ)
    → IsRatio r
    → t < success_limit
    → s ≤ t
    → allowed_retries r s ≤ allowed_retries r t
allowed_retries_mono (pos r) s t h k le =
    omega (arith, allowed_retries_exact r s, allowed_retries_exact r t, mul_mono s t r le)
allowed_retries_mono (negsuc r) s t h k le = absurd (omega arith)

-- The retries of the budget are at most `slack` more than its successes pay for.
abbrev pub IsWithin : ℕ → Budget → Type 0
IsWithin slack b = b.retries ≤ allowed_retries b.ratio b.success + slack

-- Sound use of a call: a retry is granted exactly when the successes pay for one more. A granted
-- retry is counted and keeps the budget within what the successes pay for; a refused one changes
-- nothing.
pub allow_retry_lem :
    (b : Budget)
    → b.retries < success_limit
    → (((allow_retry b).1 ≡ true) ↔ (b.retries < allowed_retries b.ratio b.success))
      × ((allow_retry b).1 ≡ true → (allow_retry b).0 ≡ record b { retries = b.retries + 1 })
      × ((allow_retry b).1 ≡ false → (allow_retry b).0 ≡ b)
unfolding allow_retry
allow_retry_lem b h =
    (((λ e. ground arith), (λ e. ground arith)), (λ e. ground arith), (λ e. ground arith))

pub double : (s r : ℕ) → s * r ≡ 2 * (s / 2 * r) + s % 2 * r
double s r = ap (λ (t : ℕ). t * r) half ∙ omega arith
  where
    half : s ≡ 2 * (s / 2) + s % 2
    half = omega arith

pub rest_le : (s r : ℕ) → s % 2 * r ≤ r
rest_le s r = grind (arith, mul_mono (s % 2) 1 r)

-- Halving may overshoot by one, and never more, however often it is repeated.
pub decay-IsWithin :
    (b : Budget) → IsRatio b.ratio → b.success < success_limit → IsWithin 1 b → IsWithin 1 (decay b)
unfolding decay
decay-IsWithin b = go b.ratio b.success b.retries
  where
    go :
        (r : ℤ) (s n : ℕ)
        → IsRatio r
        → s < success_limit
        → n ≤ allowed_retries r s + 1
        → n / 2 ≤ allowed_retries r (s / 2) + 1
    go (pos r) s n ratio few h =
        omega (
          arith,
          allowed_retries_exact r s,
          allowed_retries_exact r (s / 2),
          double s r,
          rest_le s r,
        )
    go (negsuc r) s n ratio few h = absurd (omega arith)

pub data Call : Type 0 where
  succeed retry halve : Call

unfoldable pub call : Budget → Call → Budget
call b succeed = record_success b
call b retry = (allow_retry b).0
call b halve = decay b

unfoldable pub calls : Budget → List Call → Budget
calls b [] = b
calls b (c ∷ cs) = calls (call b c) cs

record_success-IsWithin :
    (b : Budget)
    → IsRatio b.ratio
    → b.success + 1 < success_limit
    → IsWithin 1 b
    → IsWithin 1 (record_success b)
unfolding record_success
record_success-IsWithin b ratio few h =
    let e : u64 (b.success + 1) ≡ b.success + 1 = omega arith in
    rw e (omega (arith, allowed_retries_mono b.ratio b.success (b.success + 1)))

allow_retry-IsWithin : (b : Budget) → IsWithin 1 b → IsWithin 1 (allow_retry b).0
unfolding allow_retry
allow_retry-IsWithin b h = ground arith

pub record IsSound (n : ℕ) (b : Budget) : Type 0 where
  pub ratio : IsRatio b.ratio
  pub few : b.success + n < success_limit
  pub within : IsWithin 1 b

pub call-IsSound : (n : ℕ) (b : Budget) (c : Call) → IsSound (suc n) b → IsSound n (call b c)
unfolding call record_success allow_retry decay
call-IsSound n b succeed h = record {
  ratio = h.ratio;
  few = omega (arith, h.few);
  within = record_success-IsWithin b h.ratio (omega (arith, h.few)) h.within;
}
call-IsSound n b retry h = ground (arith, h.few, h.ratio, allow_retry-IsWithin b h.within)
call-IsSound n b halve h = record {
  ratio = h.ratio;
  few = omega (arith, h.few);
  within = decay-IsWithin b h.ratio (omega (arith, h.few)) h.within;
}

pub calls-IsSound : (cs : List Call) (b : Budget) → IsSound (length cs) b → IsSound 0 (calls b cs)
unfolding calls
calls-IsSound [] b h = h
calls-IsSound (c ∷ cs) b h = calls-IsSound cs (call b c) (call-IsSound (length cs) b c h)

pub new_budget-IsSound :
    (fl : Float64) (x : fl.Float) (n : ℕ) → n < success_limit → IsSound n (new_budget fl x)
unfolding new_budget
new_budget-IsSound fl x n few = record {
  ratio = new_budget-ratio fl x;
  few = omega arith;
  within = omega arith;
}
