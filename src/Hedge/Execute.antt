-- ===== src/Hedge/Execute.antt =====
-- hedge/hedge.go, ExecuteWithResultCtx as a whole: the direct call and the race.
use resili.Prelude.{
  ℕ, suc, ◌^◌, ◌≤◌, ◌<◌, ◌≡◌, ◌⊎◌, inl, inr, refl, true, false, ℤ, pos, none, some, List, [], ◌∷◌,
  arith, get_elem?, ◌<ℤ◌,
}
use resili.Errors.{Err, Outcome}
use resili.Hedge.{HedgeState, is_fast}
use resili.Hedge.Race.{returned, System, Reach}
use resili.Hedge.Race.FirstWins.{first_wins}

-- A call with these arguments, and a state of the pool, that has returned `out`, where the function
-- has given the results `finished` so far, in this order.
pub data Execute {R : Type 0} (delay max_attempts : ℤ) (zero_value : R) (ctx_err : Err)
    (pooled : HedgeState R) : List (Outcome R) → Outcome R → Type 0 where
  direct :
      is_fast delay max_attempts ≡ true
      → (out : Outcome R) → Execute delay max_attempts zero_value ctx_err pooled (out ∷ []) out
  raced :
      is_fast delay max_attempts ≡ false
      → (m : ℕ) → max_attempts ≡ pos m
      → {n : ℕ} {s : System R} (out : Outcome R)
      → Reach (record { max_attempts = m; zero_value = zero_value; ctx_err = ctx_err }) pooled n s
      → s.main ≡ returned out
      → Execute delay max_attempts zero_value ctx_err pooled s.shared.finished out

-- With at most one attempt, or without a positive delay, the function is called once, and its result
-- is the call's. Otherwise a call that returns gives the first result of the function, be it an
-- error, or the zero response with the error of the caller's context. The channel was empty, and the
-- attempts are fewer than 2 ^ 32 - 1.
pub Execute-answers :
    {R : Type 0} (delay max_attempts : ℤ) (zero_value : R) (ctx_err : Err) {pooled : HedgeState R}
    {finished : List (Outcome R)} (out : Outcome R)
    → Execute delay max_attempts zero_value ctx_err pooled finished out
    → pooled.res_ch ≡ none
    → max_attempts <ℤ pos 4_294_967_295
    → ((is_fast delay max_attempts ≡ true) × (finished ≡ out ∷ []))
      ⊎ ((is_fast delay max_attempts ≡ false)
          × ((get_elem? finished 0 ≡ some out) ⊎ (out ≡ (zero_value, some ctx_err))))
Execute-answers delay max_attempts zero_value ctx_err out (direct fast _) e small = inl (fast, refl)
Execute-answers delay max_attempts zero_value ctx_err out (raced slow m is_m _ r done) e small =
    elim (first_wins (record { max_attempts = m; zero_value = zero_value; ctx_err = ctx_err }) out r
      e several.0 several.1 done).1 [
        | inl first ↦ inr (slow, inl first)
        | inr gave_up ↦ inr (slow, inr gave_up.1)
      ]
  where
    several : (1 ≤ m) × (suc m < 2 ^ 32)
    several = ground arith
