-- ===== src/Hedge/Race/Fanout.antt =====
-- hedge/hedge.go, ExecuteWithResultCtx: how many attempts a call makes.
use resili.Prelude.{
  ℕ, ◌+◌, ◌≤◌, ◌<◌, ◌≡◌, refl, ap, ◌∙◌, arith, weigh, weigh-update, weigh-all, weigh-le, length,
  length-append, [], ◌∷◌,
}
use resili.Hedge.{HedgeState, Shared}
use resili.Hedge.Race.{
  Request, Attempt, unfired, running, reported, recycling_last, ended, AttemptMove, answer, exit,
  exit_last, put_back, System, Step, main_moves, fire, attempt_moves, ctx_ends, Reach, start, later,
}
use resili.Hedge.Race.Fired.{Fired, Reach-Fired, AttemptMove-not_unfired}
use resili.Hedge.Race.Cost.{MainMove-finished}

abbrev has_reported : Attempt → ℕ
has_reported unfired = 0
has_reported running = 0
has_reported reported = 1
has_reported recycling_last = 1
has_reported ended = 1

has_reported-le : (p : Attempt) → has_reported p ≤ 1
has_reported-le p = ground arith

AttemptMove-reports :
    {R : Type 0} {a c : Shared R} {p t : Attempt}
    → AttemptMove a p c t
    → length c.finished + has_reported p ≡ length a.finished + has_reported t
AttemptMove-reports {a} (answer r) = omega (arith, length-append {0} a.finished (r ∷ []))
AttemptMove-reports (exit e) = refl
AttemptMove-reports (exit_last e) = refl
AttemptMove-reports put_back = refl

Step-reports :
    {R : Type 0} (q : Request R) {s t : System R}
    → Step q s t
    → Fired q s
    → length s.shared.finished ≡ weigh has_reported q.max_attempts s.attempt
    → length t.shared.finished ≡ weigh has_reported q.max_attempts t.attempt
Step-reports q (main_moves mv) f h = ap length (MainMove-finished q mv) ∙ h
Step-reports q {s} (fire i e lt) f h = omega (
  arith,
  ap has_reported ((f.fresh i e).2 i (omega arith)),
  weigh-update has_reported s.attempt running lt,
)
Step-reports q {s} (attempt_moves i {p} mv) f h =
    omega (arith, AttemptMove-reports mv, weigh-update has_reported s.attempt p below)
  where
    below : i < q.max_attempts
    below = ground (arith, f.beyond i, AttemptMove-not_unfired mv)
Step-reports q (ctx_ends e) f h = h

Reach-reports :
    {R : Type 0} (q : Request R) {pooled : HedgeState R} {n : ℕ} {s : System R}
    → Reach q pooled n s
    → 1 ≤ q.max_attempts
    → length s.shared.finished ≡ weigh has_reported q.max_attempts s.attempt
Reach-reports q start h = omega (
  arith,
  weigh-update has_reported (λ _. unfired) {n = q.max_attempts} running h,
  weigh-all has_reported q.max_attempts unfired refl,
)
Reach-reports q {pooled} (later r st) h =
    Step-reports q st (Reach-Fired q pooled r h) (Reach-reports q r h)

-- The function of a hedged call gives at most maxAttempts results: each attempt that was fired reports
-- once at most, and no attempt beyond maxAttempts is ever fired.
pub results-le :
    {R : Type 0} (q : Request R) {pooled : HedgeState R} {n : ℕ} {s : System R}
    → Reach q pooled n s
    → 1 ≤ q.max_attempts
    → (length s.shared.finished ≤ q.max_attempts)
      × ((i : ℕ) → q.max_attempts ≤ i → s.attempt i ≡ unfired)
results-le q {pooled} {s = s} r h = (
  omega (
    arith,
    Reach-reports q r h,
    weigh-le has_reported s.attempt q.max_attempts 1 has_reported-le,
  ),
  (Reach-Fired q pooled r h).beyond,
)
