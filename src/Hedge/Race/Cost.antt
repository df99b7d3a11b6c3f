-- ===== src/Hedge/Race/Cost.antt =====
-- hedge/hedge.go, ExecuteWithResultCtx and hedgeAttemptCtx: the steps that a call may still make, and
-- the attempts before the first report.
use resili.Prelude.{
  ℕ, ◌+◌, ◌*◌, ◌≤◌, ◌<◌, ◌≡◌, ◌≢◌, ◌⊎◌, inl, inr, refl, sym, ◌∙◌, ap, Bool, true, false, List, [],
  ◌∷◌, ◌++◌, arith, weigh, weigh-update, weigh-le, ℕ_discrete,
}
use resili.Hedge.{HedgeState, Shared}
use resili.Hedge.Race.{
  Request, Main, waiting, draining, finishing, recycling, returned, Attempt, unfired, running,
  reported, ended, recycling_last, MainMove, receive, give_up, drain, leave, leave_last, recycle,
  AttemptMove, answer, exit, exit_last, put_back, System, Step, main_moves, fire, attempt_moves,
  ctx_ends, Reach, start, later,
}
use resili.Hedge.Race.Fired.{Fired, Reach-Fired, AttemptMove-not_unfired}

-- How many steps are still to come, at most.
abbrev pub main_cost : {R : Type 0} → Main R → ℕ
main_cost (waiting _) = 4
main_cost draining = 3
main_cost (finishing _) = 2
main_cost (recycling _) = 1
main_cost (returned _) = 0

abbrev pub cost : Attempt → ℕ
cost unfired = 4
cost running = 3
cost reported = 2
cost recycling_last = 1
cost ended = 0

abbrev pub ctx_cost : Bool → ℕ
ctx_cost true = 0
ctx_cost false = 1

abbrev pub total : {R : Type 0} → Request R → System R → ℕ
total q s = main_cost s.main + weigh cost q.max_attempts s.attempt + ctx_cost s.shared.ctx_done

pub MainMove-cost :
    {R : Type 0} (q : Request R) {a c : Shared R} {p m : Main R}
    → MainMove q a p c m
    → (main_cost m < main_cost p) × (c.ctx_done ≡ a.ctx_done)
MainMove-cost q (receive e) = (omega arith, refl)
MainMove-cost q (give_up e) = (omega arith, refl)
MainMove-cost q drain = (omega arith, refl)
MainMove-cost q (leave e) = (omega arith, refl)
MainMove-cost q (leave_last e) = (omega arith, refl)
MainMove-cost q recycle = (omega arith, refl)

pub AttemptMove-cost :
    {R : Type 0} {a c : Shared R} {p t : Attempt}
    → AttemptMove a p c t
    → (cost t < cost p) × (c.ctx_done ≡ a.ctx_done)
AttemptMove-cost (answer r) = (omega arith, refl)
AttemptMove-cost (exit e) = (omega arith, refl)
AttemptMove-cost (exit_last e) = (omega arith, refl)
AttemptMove-cost put_back = (omega arith, refl)

Step-total :
    {R : Type 0} (q : Request R) {s t : System R} → Step q s t → Fired q s → total q t < total q s
Step-total q (main_moves mv) f =
    omega (arith, (MainMove-cost q mv).0, ap ctx_cost (MainMove-cost q mv).1)
Step-total q {s} (fire i e lt) f = omega (
  arith,
  ap main_cost e,
  ap cost ((f.fresh i e).2 i (omega arith)),
  weigh-update cost s.attempt running lt,
)
Step-total q {s} (attempt_moves i {p} mv) f = omega (
  arith,
  (AttemptMove-cost mv).0,
  ap ctx_cost (AttemptMove-cost mv).1,
  weigh-update cost s.attempt p below,
)
  where
    below : i < q.max_attempts
    below = ground (arith, f.beyond i, AttemptMove-not_unfired mv)
Step-total q (ctx_ends e) f = omega (arith, ap ctx_cost e)

cost-le : (p : Attempt) → cost p ≤ 4
cost-le p = ground arith

pub Reach-total :
    {R : Type 0} (q : Request R) {pooled : HedgeState R} {n : ℕ} {s : System R}
    → Reach q pooled n s
    → 1 ≤ q.max_attempts
    → n + total q s ≤ 4 * q.max_attempts + 4
Reach-total q start h = omega (
  arith,
  weigh-update cost (λ _. unfired) {n = q.max_attempts} running h,
  weigh-le cost (λ _. unfired) q.max_attempts 4 cost-le,
)
Reach-total q {pooled} (later r st) h =
    omega (arith, Reach-total q r h, Step-total q st (Reach-Fired q pooled r h))

-- Before the first report the first attempt runs.
abbrev pub FirstRuns : {R : Type 0} → System R → Type 0
FirstRuns s = s.shared.finished ≡ [] → s.attempt 0 ≡ running

pub MainMove-finished :
    {R : Type 0} (q : Request R) {a c : Shared R} {p m : Main R}
    → MainMove q a p c m
    → c.finished ≡ a.finished
MainMove-finished q (receive e) = refl
MainMove-finished q (give_up e) = refl
MainMove-finished q drain = refl
MainMove-finished q (leave e) = refl
MainMove-finished q (leave_last e) = refl
MainMove-finished q recycle = refl

append-not_empty : {R : Type 0} (xs : List R) (x : R) → (xs ++ (x ∷ [])) ≢ []
append-not_empty [] x e = ground arith
append-not_empty (y ∷ xs) x e = ground arith

AttemptMove-finished :
    {R : Type 0} {a c : Shared R} {p t : Attempt}
    → AttemptMove a p c t
    → (c.finished ≢ []) ⊎ ((p ≢ running) × (c.finished ≡ a.finished))
AttemptMove-finished {a} (answer r) = inl (append-not_empty a.finished r)
AttemptMove-finished (exit e) = inr ((λ g. ground arith), refl)
AttemptMove-finished (exit_last e) = inr ((λ g. ground arith), refl)
AttemptMove-finished put_back = inr ((λ g. ground arith), refl)

Step-FirstRuns :
    {R : Type 0} (q : Request R) {s t : System R}
    → Step q s t
    → Fired q s
    → FirstRuns s
    → FirstRuns t
Step-FirstRuns q (main_moves mv) f h e = h (sym (MainMove-finished q mv) ∙ e)
Step-FirstRuns q {s} (fire i e lt) f h g = ground (arith, (f.fresh i e).0, h g)
Step-FirstRuns q {s} (attempt_moves i mv) f h e = elim (AttemptMove-finished mv) [
  | inl ne ↦ absurd (ne e)
  | inr (ne, same) ↦ ground (arith, h (sym same ∙ e))
]
Step-FirstRuns q (ctx_ends e) f h g = h g

pub Reach-FirstRuns :
    {R : Type 0} (q : Request R) {pooled : HedgeState R} {n : ℕ} {s : System R}
    → Reach q pooled n s
    → 1 ≤ q.max_attempts
    → FirstRuns s
unfolding ℕ_discrete
Reach-FirstRuns q start h = λ e. refl
Reach-FirstRuns q {pooled} (later r st) h =
    Step-FirstRuns q st (Reach-Fired q pooled r h) (Reach-FirstRuns q r h)
