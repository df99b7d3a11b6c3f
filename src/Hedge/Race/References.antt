-- ===== src/Hedge/Race/References.antt =====
-- hedge/hedge.go, ExecuteWithResultCtx and hedgeAttemptCtx: who holds a reference to the state, and
-- who has seen the last one go.
use resili.Prelude.{
  ℕ, suc, ◌+◌, ◌^◌, ◌≤◌, ◌<◌, ◌≡◌, ◌≢◌, refl, ap, List, [], ◌∷◌, arith, update, weigh, weigh-update,
  weight-le-weigh, weigh-all, weigh-le, length,
}
use resili.Hedge.{HedgeState, Shared, on_state, retain, new_state}
use resili.Hedge.Race.{
  Request, Main, waiting, recycling, returned, Attempt, unfired, running, reported, recycling_last,
  MainMove, receive, give_up, drain, leave, leave_last, recycle, AttemptMove, answer, exit,
  exit_last, put_back, System, Step, main_moves, fire, attempt_moves, ctx_ends, Reach, start, later,
}
use resili.Hedge.Race.Fired.{Fired, Reach-Fired, AttemptMove-not_unfired}

-- The references that the coordinator and an attempt hold.
abbrev pub main_holds : {R : Type 0} → Main R → ℕ
main_holds (recycling _) = 0
main_holds (returned _) = 0
main_holds _ = 1

abbrev pub holds : Attempt → ℕ
holds running = 1
holds reported = 1
holds _ = 0

-- Who has seen the counter at 0, and has not put the state back yet.
abbrev pub main_owes : {R : Type 0} → Main R → ℕ
main_owes (recycling _) = 1
main_owes _ = 0

abbrev pub owes : Attempt → ℕ
owes recycling_last = 1
owes _ = 0

abbrev pub IsClean : {R : Type 0} → List (HedgeState R) → Type 0
IsClean [] = Unit
IsClean (s ∷ pool) = (s ≡ new_state) × IsClean pool

-- The counter is the number `h` of references, and at 0 the state is put back once: `o` still owe it.
pub record Counts {R : Type 0} (a : Shared R) (h o : ℕ) : Type 0 where
  pub counted : a.state.active ≡ h
  pub due : a.state.active ≡ 0 → o + length a.pool ≡ 1
  pub none_due : a.state.active ≢ 0 → o + length a.pool ≡ 0
  pub clean : IsClean a.pool

AttemptMove-Counts :
    {R : Type 0} {a c : Shared R} {p t : Attempt} {h h' o o' : ℕ}
    → AttemptMove a p c t
    → Counts a h o
    → h < 2 ^ 32
    → holds p ≤ h
    → owes p ≤ o
    → h' + holds p ≡ h + holds t
    → o' + owes p ≡ o + owes t
    → Counts c h' o'
AttemptMove-Counts (answer r) k small le le' e e' = record {
  counted = ground (arith, k.counted);
  due = λ g. ground (arith, k.counted, k.due, k.none_due);
  none_due = λ g. ground (arith, k.counted, k.due, k.none_due);
  clean = k.clean;
}
AttemptMove-Counts (exit ne) k small le le' e e' = record {
  counted = ground (arith, k.counted);
  due = λ g. ground (arith, k.counted, k.due, k.none_due);
  none_due = λ g. ground (arith, k.counted, k.due, k.none_due);
  clean = k.clean;
}
AttemptMove-Counts (exit_last ne) k small le le' e e' = record {
  counted = ground (arith, k.counted);
  due = λ g. ground (arith, k.counted, k.due, k.none_due);
  none_due = λ g. ground (arith, k.counted, k.due, k.none_due);
  clean = k.clean;
}
AttemptMove-Counts put_back k small le le' e e' = record {
  counted = ground (arith, k.counted);
  due = λ g. ground (arith, k.counted, k.due, k.none_due);
  none_due = λ g. ground (arith, k.counted, k.due, k.none_due);
  clean = (ground (arith, k.counted, k.due, k.none_due), k.clean);
}

MainMove-Counts :
    {R : Type 0} (q : Request R) {a c : Shared R} {p t : Main R} {h h' o o' : ℕ}
    → MainMove q a p c t
    → Counts a h o
    → h < 2 ^ 32
    → main_holds p ≤ h
    → main_owes p ≤ o
    → h' + main_holds p ≡ h + main_holds t
    → o' + main_owes p ≡ o + main_owes t
    → Counts c h' o'
MainMove-Counts q (receive ne) k small le le' e e' = record {
  counted = ground (arith, k.counted);
  due = λ g. ground (arith, k.counted, k.due, k.none_due);
  none_due = λ g. ground (arith, k.counted, k.due, k.none_due);
  clean = k.clean;
}
MainMove-Counts q (give_up ne) k small le le' e e' = record {
  counted = ground (arith, k.counted);
  due = λ g. ground (arith, k.counted, k.due, k.none_due);
  none_due = λ g. ground (arith, k.counted, k.due, k.none_due);
  clean = k.clean;
}
MainMove-Counts q drain k small le le' e e' = record {
  counted = ground (arith, k.counted);
  due = λ g. ground (arith, k.counted, k.due, k.none_due);
  none_due = λ g. ground (arith, k.counted, k.due, k.none_due);
  clean = k.clean;
}
MainMove-Counts q (leave ne) k small le le' e e' = record {
  counted = ground (arith, k.counted);
  due = λ g. ground (arith, k.counted, k.due, k.none_due);
  none_due = λ g. ground (arith, k.counted, k.due, k.none_due);
  clean = k.clean;
}
MainMove-Counts q (leave_last ne) k small le le' e e' = record {
  counted = ground (arith, k.counted);
  due = λ g. ground (arith, k.counted, k.due, k.none_due);
  none_due = λ g. ground (arith, k.counted, k.due, k.none_due);
  clean = k.clean;
}
MainMove-Counts q recycle k small le le' e e' = record {
  counted = ground (arith, k.counted);
  due = λ g. ground (arith, k.counted, k.due, k.none_due);
  none_due = λ g. ground (arith, k.counted, k.due, k.none_due);
  clean = (ground (arith, k.counted, k.due, k.none_due), k.clean);
}

retain-Counts :
    {R : Type 0} (a : Shared R) {h h' o o' : ℕ}
    → Counts a h o
    → 1 ≤ h
    → h' ≡ suc h
    → h' < 2 ^ 32
    → o' ≡ o
    → Counts (on_state retain a) h' o'
retain-Counts a k held e small e' = record {
  counted = ground (arith, k.counted);
  due = λ g. ground (arith, k.counted, k.none_due);
  none_due = λ g. ground (arith, k.counted, k.none_due);
  clean = k.clean;
}

holds-le : (p : Attempt) → holds p ≤ 1
holds-le p = ground arith

main_holds-le : {R : Type 0} (m : Main R) → main_holds m ≤ 1
main_holds-le m = ground arith

module _ {R : Type 0} (q : Request R) (small : suc q.max_attempts < 2 ^ 32) where
  references-small :
      (m : Main R) (attempt : ℕ → Attempt)
      → main_holds m + weigh holds q.max_attempts attempt < 2 ^ 32
  references-small m attempt =
      omega (arith, main_holds-le m, weigh-le holds attempt q.max_attempts 1 holds-le)

  Step-Counts :
      {s t : System R}
      → Step q s t
      → Fired q s
      → Counts s.shared
          (main_holds s.main + weigh holds q.max_attempts s.attempt)
          (main_owes s.main + weigh owes q.max_attempts s.attempt)
      → Counts t.shared
          (main_holds t.main + weigh holds q.max_attempts t.attempt)
          (main_owes t.main + weigh owes q.max_attempts t.attempt)
  Step-Counts {s} (main_moves mv) f k =
      MainMove-Counts q mv k (references-small s.main s.attempt) (omega arith) (omega arith)
        (omega arith) (omega arith)
  Step-Counts {s} (fire i e lt) f k =
      retain-Counts s.shared k (omega (arith, ap main_holds e))
        (omega (arith, ap main_holds e, ap holds idle, weigh-update holds s.attempt running lt))
        (references-small (waiting (suc i)) (update s.attempt i running))
        (omega (arith, ap main_owes e, ap owes idle, weigh-update owes s.attempt running lt))
    where
      idle : s.attempt i ≡ unfired
      idle = (f.fresh i e).2 i (omega arith)
  Step-Counts {s} (attempt_moves i {p} mv) f k =
      AttemptMove-Counts mv k (references-small s.main s.attempt)
        (omega (arith, weight-le-weigh holds s.attempt below))
        (omega (arith, weight-le-weigh owes s.attempt below))
        (omega (arith, weigh-update holds s.attempt p below))
        (omega (arith, weigh-update owes s.attempt p below))
    where
      below : i < q.max_attempts
      below = ground (arith, f.beyond i, AttemptMove-not_unfired mv)
  Step-Counts (ctx_ends e) f k = record {
    counted = k.counted;
    due = k.due;
    none_due = k.none_due;
    clean = k.clean;
  }

  pub Reach-Counts :
      {pooled : HedgeState R} {n : ℕ} {s : System R}
      → Reach q pooled n s
      → 1 ≤ q.max_attempts
      → Counts s.shared
          (main_holds s.main + weigh holds q.max_attempts s.attempt)
          (main_owes s.main + weigh owes q.max_attempts s.attempt)
  Reach-Counts (start) h = record {
    counted = omega (
      arith,
      weigh-update holds (λ _. unfired) {n = q.max_attempts} running h,
      weigh-all holds q.max_attempts unfired refl,
    );
    due = λ e. absurd (omega arith);
    none_due = λ _. omega (
      arith,
      weigh-update owes (λ _. unfired) {n = q.max_attempts} running h,
      weigh-all owes q.max_attempts unfired refl,
    );
    clean = tt;
  }
  Reach-Counts {pooled} (later r st) h =
      Step-Counts st (Reach-Fired q pooled r h) (Reach-Counts r h)
