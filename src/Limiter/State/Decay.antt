-- ===== src/Limiter/State/Decay.antt =====
-- limiter/brr.go: where the default gain cycle takes the limit, one adjustment after the other.
pub mod Ticks
pub mod Runs
use resili.Prelude.{
  ℕ, zero, suc, ◌+◌, ◌-◌, ◌*◌, ◌/◌, ◌%◌, ◌^◌, ◌≤◌, ◌<◌, ◌≡◌, ◌⊎◌, inl, inr, refl, ap, ◌∙◌, Bool,
  true, false, ℤ, pos, negsuc, List, [], ◌∷◌, some, ◌≤ℤ◌, ◌<ℤ◌, arith, sub64, eq_ℤ, ltb, leb, ◌==◌,
  get_elem?, length, dec_lt, ℕ_discrete, Bool-cases, leb_ℤ, if◌then◌else◌,
}
use resili.Limiter.Options.{default_options}
use resili.Limiter.State.{
  Limiter, acquire, done, ema, observe_rtt, target_limit, clamp_limit, adjust, on_tick, Event,
  acquired, finished, ticked, closed, stopped, handle, run,
}
use resili.Limiter.State.Rtt.{
  TakesBetween, ema_bounds, sub64_le, on_tick_keeps, congestion, no_congestion,
}

-- The gain at a place of the default cycle.
abbrev pub gain_of : ℕ → ℕ
gain_of p = if p == 0 then 1280 else if p == 2 then 768 else 1024

pub gain_found : (p : ℕ) → p < 8 → get_elem? default_options.gain_cycle p ≡ some (pos (gain_of p))
gain_found zero h = refl
gain_found (suc zero) h = refl
gain_found (suc (suc zero)) h = refl
gain_found (suc (suc (suc zero))) h = refl
gain_found (suc (suc (suc (suc zero)))) h = refl
gain_found (suc (suc (suc (suc (suc zero))))) h = refl
gain_found (suc (suc (suc (suc (suc (suc zero)))))) h = refl
gain_found (suc (suc (suc (suc (suc (suc (suc zero))))))) h = refl
gain_found (suc (suc (suc (suc (suc (suc (suc (suc p)))))))) h = absurd (omega arith)

-- Congestion or not, the limit that is aimed at is at most the gain's.
pub target_limit_le :
    (limit gain m e : ℕ)
    → limit * gain < 2 ^ 53
    → m < 2 ^ 53
    → e < 2 ^ 53
    → (t : ℕ) × (target_limit (pos limit) (pos gain) (pos m) (pos e) ≡ pos t)
      × (t ≤ limit * gain / 1024)
target_limit_le limit gain m e fits small_m small_e = elim (dec_lt m e) [
  | yes lt ↦ let (t, is_t, le, _) = congestion limit gain m e fits small_e lt in (t, is_t, le)
  | no ge ↦
      (limit * gain / 1024, no_congestion limit gain m e fits small_m (omega arith), omega arith)
]

-- How many adjustments ago the limit was last lowered by the gain 768, at this place of the cycle.
abbrev pub age : ℕ → ℕ
age p = if ltb p 2 then p + 6 else p - 2

-- The limit is at most `most`, or 5 / 4 of it just after the gain 1280; and `most` is 1 in `n` more
-- adjustments.
pub record IsBelow (n p limit : ℕ) : Type 0 where
  pub most : ℕ
  pub positive : 1 ≤ most
  pub soon : (most ≡ 1) ⊎ (8 * most ≤ n + age p)
  pub raised : p < 2 → 4 * limit ≤ 5 * most
  pub level : 2 ≤ p → limit ≤ most

abbrev less : ℕ → ℕ
less b = if leb b 1 then 1 else b - 1

abbrev pub next : ℕ → ℕ
next p = (p + 1) % 8

pub adjusted-IsBelow :
    (n p limit limit' : ℕ)
    → p < 8
    → (limit' ≤ 1) ⊎ (limit' ≤ limit * gain_of (next p) / 1024)
    → IsBelow n p limit
    → IsBelow (n - 1) (next p) limit'
adjusted-IsBelow n p limit limit' lt h b = elim (ℕ_discrete p 1) [
  | yes one ↦ record {
    most = less b.most;
    positive = ground arith;
    soon = ground (arith, b.soon, b.positive);
    raised = λ k. absurd (omega arith);
    level = λ k. ground (arith, b.raised, b.positive);
  }
  | no other ↦ record {
    most = b.most;
    positive = b.positive;
    soon = ground (arith, b.soon, b.positive);
    raised = λ k. ground (arith, b.raised, b.level, b.positive);
    level = λ k. ground (arith, b.raised, b.level, b.positive);
  }
]
