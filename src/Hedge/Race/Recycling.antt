-- ===== src/Hedge/Race/Recycling.antt =====
-- hedge/hedge.go, ExecuteWithResultCtx and hedgeAttemptCtx: when the state goes back to the pool.
use resili.Prelude.{
  ℕ, suc, ◌+◌, ◌^◌, ◌≤◌, ◌<◌, ◌≡◌, ◌↔◌, ◌⊎◌, inl, inr, refl, ap, Bool, true, false, List, [], ◌∷◌,
  arith, weigh, weight-le-weigh, weigh-zero, length, dec_lt,
}
use resili.Hedge.{HedgeState, new_state}
use resili.Hedge.Race.{Request, Main, returned, Attempt, unfired, ended, System, Reach}
use resili.Hedge.Race.Fired.{Fired, Reach-Fired}
use resili.Hedge.Race.References.{main_holds, holds, main_owes, owes, IsClean, Counts, Reach-Counts}

-- The call is over: the coordinator has returned, and every attempt that was fired has ended.
abbrev pub is_returned : {R : Type 0} → Main R → Bool
is_returned (returned _) = true
is_returned _ = false

abbrev pub is_over : Attempt → Bool
is_over unfired = true
is_over ended = true
is_over _ = false

abbrev pub IsAtRest : {R : Type 0} → System R → Type 0
IsAtRest s = (is_returned s.main ≡ true) × ((i : ℕ) → is_over (s.attempt i) ≡ true)

pool-cases :
    {R : Type 0} (pool : List (HedgeState R))
    → length pool ≤ 1
    → IsClean pool
    → (pool ≡ []) ⊎ (pool ≡ new_state ∷ [])
pool-cases [] h k = inl refl
pool-cases (s ∷ []) h k = inr (ap (λ t. t ∷ []) k.0)
pool-cases (s ∷ t ∷ pool) h k = absurd (omega arith)

main-over : {R : Type 0} (m : Main R) → main_holds m ≡ 0 → main_owes m ≡ 0 → is_returned m ≡ true
main-over m h o = ground arith

attempt-over : (p : Attempt) → holds p ≡ 0 → owes p ≡ 0 → is_over p ≡ true
attempt-over p h o = ground arith

at_rest-main :
    {R : Type 0} (m : Main R) → is_returned m ≡ true → (main_holds m ≡ 0) × (main_owes m ≡ 0)
at_rest-main m h = ground arith

at_rest-attempt : (p : Attempt) → is_over p ≡ true → (holds p ≡ 0) × (owes p ≡ 0)
at_rest-attempt p h = ground arith

module _ {R : Type 0} (q : Request R) (s : System R)
    (k : Counts s.shared
      (main_holds s.main + weigh holds q.max_attempts s.attempt)
      (main_owes s.main + weigh owes q.max_attempts s.attempt)) where
  at_most_once : length s.shared.pool ≤ 1
  at_most_once = ground (arith, k.due, k.none_due)

  nothing_left :
      length s.shared.pool ≡ 1
      → (main_holds s.main + weigh holds q.max_attempts s.attempt ≡ 0)
        × (main_owes s.main + weigh owes q.max_attempts s.attempt ≡ 0)
  nothing_left e = ground (arith, k.due, k.none_due, k.counted)

  pooled-IsAtRest : Fired q s → length s.shared.pool ≡ 1 → IsAtRest s
  pooled-IsAtRest f e = (
    main-over s.main (omega (arith, gone.0)) (omega (arith, gone.1)),
    λ i. elim (dec_lt i q.max_attempts) [
      | yes lt ↦
          attempt-over (s.attempt i) (omega (arith, gone.0, weight-le-weigh holds s.attempt lt))
            (omega (arith, gone.1, weight-le-weigh owes s.attempt lt))
      | no ge ↦ ground (arith, f.beyond i)
    ],
  )
    where
      gone :
          (main_holds s.main + weigh holds q.max_attempts s.attempt ≡ 0)
          × (main_owes s.main + weigh owes q.max_attempts s.attempt ≡ 0)
      gone = nothing_left e

  at_rest-pooled : IsAtRest s → length s.shared.pool ≡ 1
  at_rest-pooled rest = omega (arith, k.due free, main_idle.1, paid)
    where
      main_idle : (main_holds s.main ≡ 0) × (main_owes s.main ≡ 0)
      main_idle = at_rest-main s.main rest.0

      unheld : weigh holds q.max_attempts s.attempt ≡ 0
      unheld =
          weigh-zero holds s.attempt q.max_attempts
            (λ i. (at_rest-attempt (s.attempt i) (rest.1 i)).0)

      paid : weigh owes q.max_attempts s.attempt ≡ 0
      paid =
          weigh-zero owes s.attempt q.max_attempts
            (λ i. (at_rest-attempt (s.attempt i) (rest.1 i)).1)

      free : s.shared.state.active ≡ 0
      free = omega (arith, k.counted, main_idle.0, unheld)

-- A call never puts its state back twice. It puts it back, with an empty channel and the counter at
-- 0, exactly if the coordinator has returned and all attempts have ended, in whatever order; the
-- attempts are fewer than 2 ^ 32 - 1.
pub recycled-IsAtRest :
    {R : Type 0} (q : Request R) {pooled : HedgeState R} {n : ℕ} {s : System R}
    → Reach q pooled n s
    → 1 ≤ q.max_attempts
    → suc q.max_attempts < 2 ^ 32
    → ((s.shared.pool ≡ []) ⊎ (s.shared.pool ≡ new_state ∷ []))
      × ((s.shared.pool ≡ new_state ∷ []) ↔ IsAtRest s)
recycled-IsAtRest q {pooled} {s = s} r h small = (
  pool-cases s.shared.pool (at_most_once q s k) k.clean,
  (
    (λ e. pooled-IsAtRest q s k (Reach-Fired q pooled r h) (ap length e)),
    λ rest. elim (pool-cases s.shared.pool (at_most_once q s k) k.clean) [
      | inl e ↦ absurd (omega (arith, ap length e, at_rest-pooled q s k rest))
      | inr e ↦ e
    ],
  ),
)
  where
    k :
        Counts s.shared
          (main_holds s.main + weigh holds q.max_attempts s.attempt)
          (main_owes s.main + weigh owes q.max_attempts s.attempt)
    k = Reach-Counts q small r h
