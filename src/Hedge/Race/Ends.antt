-- ===== src/Hedge/Race/Ends.antt =====
-- hedge/hedge.go, ExecuteWithResultCtx and hedgeAttemptCtx: every call comes to an end.
use resili.Prelude.{
  ℕ, zero, suc, ◌+◌, ◌*◌, ◌^◌, ◌≤◌, ◌<◌, ◌≡◌, ◌⊎◌, inl, inr, refl, true, false, none, List, [], ◌∷◌,
  arith, get_elem?, ℕ_discrete, dec_lt, Bool-cases,
}
use resili.Errors.{Outcome}
use resili.Hedge.{HedgeState, Shared, release}
use resili.Hedge.Race.{
  Request, Main, waiting, draining, finishing, recycling, returned, Attempt, unfired, running,
  reported, ended, recycling_last, MainMove, receive, drain, leave, leave_last, recycle,
  AttemptMove, answer, exit, exit_last, put_back, System, Step, main_moves, attempt_moves, Reach,
}
use resili.Hedge.Race.Fired.{Reach-Fired}
use resili.Hedge.Race.Recycling.{IsAtRest, is_returned, is_over}
use resili.Hedge.Race.FirstWins.{Reach-waiting}
use resili.Hedge.Race.Cost.{
  MainMove-cost, AttemptMove-cost, FirstRuns, Reach-total, Reach-FirstRuns,
}

-- A step that is not the end of the caller's context.
abbrev pub CanMove : {R : Type 0} → Request R → System R → Type 0
CanMove {R} q s = (t : System R) × Step q s t × (t.shared.ctx_done ≡ s.shared.ctx_done)

module _ {R : Type 0} (q : Request R) (s : System R) where
  attempt_step :
      (i : ℕ) {c : Shared R} {p t : Attempt}
      → s.attempt i ≡ p
      → AttemptMove s.shared p c t
      → CanMove q s
  attempt_step i {c} {p} {t} e mv =
      let mv' : AttemptMove s.shared (s.attempt i) c t = rw e mv in
      (_, attempt_moves i mv', (AttemptMove-cost mv).1)

  main_step : {c : Shared R} {p m : Main R} → s.main ≡ p → MainMove q s.shared p c m → CanMove q s
  main_step {c} {p} {m} e mv =
      let mv' : MainMove q s.shared s.main c m = rw e mv in
      (_, main_moves mv', (MainMove-cost q mv).1)

  attempt-CanMove : (i : ℕ) (p : Attempt) → s.attempt i ≡ p → is_over p ≡ false → CanMove q s
  attempt-CanMove i running e h = attempt_step i e (answer (q.zero_value, none))
  attempt-CanMove i reported e h = elim (ℕ_discrete (release s.shared.state).active 0) [
    | yes z ↦ attempt_step i e (exit_last z)
    | no nz ↦ attempt_step i e (exit nz)
  ]
  attempt-CanMove i recycling_last e h = attempt_step i e put_back
  attempt-CanMove i unfired e h = absurd (ground arith)
  attempt-CanMove i ended e h = absurd (ground arith)

  waiting-CanMove :
      (k : ℕ) (done : List (Outcome R))
      → s.main ≡ waiting k
      → s.shared.finished ≡ done
      → s.shared.state.res_ch ≡ get_elem? done 0
      → FirstRuns s
      → CanMove q s
  waiting-CanMove k [] e g w f = attempt-CanMove 0 running (f g) refl
  waiting-CanMove k (r ∷ done) e g w f = main_step e (receive w)

  main-CanMove :
      (m : Main R)
      → s.main ≡ m
      → is_returned m ≡ false
      → ((k : ℕ) → s.main ≡ waiting k → s.shared.state.res_ch ≡ get_elem? s.shared.finished 0)
      → FirstRuns s
      → CanMove q s
  main-CanMove (waiting k) e h w f = waiting-CanMove k s.shared.finished e refl (w k e) f
  main-CanMove draining e h w f = main_step e drain
  main-CanMove (finishing r) e h w f = elim (ℕ_discrete (release s.shared.state).active 0) [
    | yes z ↦ main_step e (leave_last z)
    | no nz ↦ main_step e (leave nz)
  ]
  main-CanMove (recycling r) e h w f = main_step e recycle
  main-CanMove (returned r) e h w f = absurd (ground arith)

  attempts-cases :
      (n : ℕ)
      → ((i : ℕ) → i < n → is_over (s.attempt i) ≡ true)
        ⊎ ((i : ℕ) × (is_over (s.attempt i) ≡ false))
  attempts-cases zero = inl (λ i h. absurd (omega arith))
  attempts-cases (suc n) = elim (attempts-cases n) [
    | inr found ↦ inr found
    | inl over ↦ elim (Bool-cases (is_over (s.attempt n))) [
      | inl yes_n ↦ inl (λ i h. elim (dec_lt i n) [ yes lt ↦ over i lt | no ge ↦ ground arith ])
      | inr no_n ↦ inr (n, no_n)
    ]
  ]

-- Every call ends: it makes at most 4 * maxAttempts + 4 steps, and as long as the coordinator has not
-- returned or some attempt has not ended, there is a next step that does not wait for the caller's
-- context. The state had an empty channel, and the attempts are fewer than 2 ^ 32 - 1.
pub race_ends :
    {R : Type 0} (q : Request R) {pooled : HedgeState R} {n : ℕ} {s : System R}
    → Reach q pooled n s
    → pooled.res_ch ≡ none
    → 1 ≤ q.max_attempts
    → suc q.max_attempts < 2 ^ 32
    → (n ≤ 4 * q.max_attempts + 4) × (IsAtRest s ⊎ CanMove q s)
race_ends q {pooled} {s = s} r e h small = (
  omega (arith, Reach-total q r h),
  elim (Bool-cases (is_returned s.main)) [
    | inr on ↦ inr (
        main-CanMove q s s.main refl on (λ k w. Reach-waiting q k r e h small w)
          (Reach-FirstRuns q r h))
    | inl off ↦ elim (attempts-cases q s q.max_attempts) [
      | inr (i, on) ↦ inr (attempt-CanMove q s i (s.attempt i) refl on)
      | inl over ↦ inl (
        off,
        λ i. elim (dec_lt i q.max_attempts) [
          | yes lt ↦ over i lt
          | no ge ↦ ground (arith, (Reach-Fired q pooled r h).beyond i)
        ],
      )
    ]
  ],
)
