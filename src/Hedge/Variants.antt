-- ===== src/Hedge/Variants.antt =====
-- hedge/hedge.go: the variants that wrap ExecuteWithResultCtx, and hedgeAttempt, which nothing calls.
use resili.Prelude.{
  ℕ, suc, ◌^◌, ◌≤◌, ◌<◌, ◌≡◌, inl, inr, refl, true, false, ℤ, pos, Option, none, some, List, [],
  ◌∷◌, arith, get_elem?, ◌<ℤ◌, ◌==◌, Bool-cases, if◌then◌else◌,
}
use resili.Errors.{Err, Outcome}
use resili.Hedge.{HedgeState, Shared, is_fast, on_state, release, report, recycle_state}
use resili.Hedge.Race.{
  returned, System, Reach, Attempt, running, ended, AttemptMove, answer, exit, exit_last, put_back,
}
use resili.Hedge.Race.FirstWins.{first_wins}
use resili.Hedge.Execute as Whole

module _ {R : Type 0} (delay max_attempts : ℤ) (zero_value : R) (ctx_err : Err)
    (pooled : HedgeState R) where
  -- As `Execute`, with context.Background(), which is never done.
  pub data ExecuteWithResult : List (Outcome R) → Outcome R → Type 0 where
    direct :
        is_fast delay max_attempts ≡ true → (out : Outcome R) → ExecuteWithResult (out ∷ []) out
    raced :
        is_fast delay max_attempts ≡ false
        → (m : ℕ) → max_attempts ≡ pos m
        → {n : ℕ} {s : System R} (out : Outcome R)
        → Reach (record { max_attempts = m; zero_value = zero_value; ctx_err = ctx_err }) pooled n s
        → s.shared.ctx_done ≡ false
        → s.main ≡ returned out
        → ExecuteWithResult s.shared.finished out

  -- hedge.Execute and ExecuteCtx: the error alone.
  pub data ExecuteError (finished : List (Outcome R)) : Option Err → Type 0 where
    forget : (out : Outcome R) → ExecuteWithResult finished out → ExecuteError finished out.1

  pub data ExecuteCtx (finished : List (Outcome R)) : Option Err → Type 0 where
    forget_ctx :
        (out : Outcome R)
        → Whole.Execute delay max_attempts zero_value ctx_err pooled finished out
        → ExecuteCtx finished out.1

  -- Without a context of the caller, a call that returns gives the first result of the action, and
  -- never the error of a context.
  pub uncancelled_first :
      {finished : List (Outcome R)} (out : Outcome R)
      → ExecuteWithResult finished out
      → pooled.res_ch ≡ none
      → max_attempts <ℤ pos 4_294_967_295
      → get_elem? finished 0 ≡ some out
  uncancelled_first out (direct fast _) e small = refl
  uncancelled_first out (raced slow m is_m _ r waits done) e small =
      elim (first_wins (record { max_attempts = m; zero_value = zero_value; ctx_err = ctx_err }) out
        r e several.0 several.1 done).1 [
          | inl first ↦ first
          | inr gave_up ↦ absurd (ground (arith, gave_up.0))
        ]
    where
      several : (1 ≤ m) × (suc m < 2 ^ 32)
      several = ground arith

-- hedgeAttempt, when no other goroutine comes between: an attempt that gets no context.
abbrev pub hedge_attempt : {R : Type 0} → Outcome R → Shared R → Shared R
hedge_attempt r a =
    let a₁ = on_state release (report r a) in if a₁.state.active == 0 then recycle_state a₁ else a₁

-- The moves of one attempt, one after the other.
pub data Alone {R : Type 0} (a : Shared R) (p : Attempt) : Shared R → Attempt → Type 0 where
  stay : Alone a p a p
  move : {b c : Shared R} {q r : Attempt} → Alone a p b q → AttemptMove b q c r → Alone a p c r

-- It does what hedgeAttemptCtx does with an attempt that ignores its context.
pub hedge_attempt-Alone :
    {R : Type 0} (r : Outcome R) (a : Shared R) → Alone a running (hedge_attempt r a) ended
hedge_attempt-Alone r a = elim (Bool-cases ((release (report r a).state).active == 0)) [
  | inl last ↦
      rw last (move (move (move stay (answer r)) (exit_last (ground (arith, last)))) put_back)
  | inr more ↦ rw more (move (move stay (answer r)) (exit (λ e. ground (arith, more, e))))
]
