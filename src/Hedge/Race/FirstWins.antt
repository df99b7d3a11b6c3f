-- ===== src/Hedge/Race/FirstWins.antt =====
-- hedge/hedge.go, ExecuteWithResultCtx: which result the caller gets.
use resili.Prelude.{
  ℕ, suc, ◌+◌, ◌^◌, ◌≤◌, ◌<◌, ◌≡◌, ◌⊎◌, inl, inr, refl, sym, ◌∙◌, true, Option, none, some, List,
  [], ◌∷◌, ◌++◌, arith, weigh, weight-le-weigh, get_elem?,
}
use resili.Errors.{Outcome}
use resili.Hedge.{HedgeState, Shared, report}
use resili.Hedge.Race.{
  Request, Main, waiting, draining, finishing, recycling, returned, Attempt, MainMove, receive,
  give_up, drain, leave, leave_last, recycle, AttemptMove, answer, exit, exit_last, put_back,
  System, Step, main_moves, fire, attempt_moves, ctx_ends, Reach, start, later,
}
use resili.Hedge.Race.Fired.{Fired, Reach-Fired, AttemptMove-not_unfired}
use resili.Hedge.Race.References.{main_holds, holds, main_owes, owes, Counts, Reach-Counts}

-- The result is the first that an attempt reported, or the context of the caller is done and the
-- result is its error.
abbrev pub IsResult : {R : Type 0} → Request R → Shared R → Outcome R → Type 0
IsResult q a out =
    (get_elem? a.finished 0 ≡ some out)
    ⊎ ((a.ctx_done ≡ true) × (out ≡ (q.zero_value, some q.ctx_err)))

-- While the coordinator waits, the channel holds the first result that was reported.
abbrev IsSettled : {R : Type 0} → Request R → Shared R → Main R → Type 0
IsSettled q a (waiting _) = a.state.res_ch ≡ get_elem? a.finished 0
IsSettled q a draining = (a.cancelled ≡ true) × (a.ctx_done ≡ true)
IsSettled q a (finishing out) = (a.cancelled ≡ true) × IsResult q a out
IsSettled q a (recycling out) = (a.cancelled ≡ true) × IsResult q a out
IsSettled q a (returned out) = (a.cancelled ≡ true) × IsResult q a out

MainMove-IsSettled :
    {R : Type 0} (q : Request R) {a c : Shared R} {p m : Main R}
    → MainMove q a p c m
    → IsSettled q a p
    → IsSettled q c m
MainMove-IsSettled q (receive e) h = (refl, inl (sym h ∙ e))
MainMove-IsSettled q (give_up e) h = (refl, e)
MainMove-IsSettled q drain h = (h.0, inr (h.1, refl))
MainMove-IsSettled q (leave _) h = h
MainMove-IsSettled q (leave_last _) h = h
MainMove-IsSettled q recycle h = h

report-first :
    {R : Type 0} (r out : Outcome R) (done : List (Outcome R))
    → get_elem? done 0 ≡ some out
    → get_elem? (done ++ (r ∷ [])) 0 ≡ some out
report-first r out [] h = ground arith
report-first r out (x ∷ done) h = h

report-IsResult :
    {R : Type 0} (q : Request R) (r : Outcome R) (a : Shared R) (out : Outcome R)
    → IsResult q a out
    → IsResult q (report r a) out
report-IsResult q r a out (inl h) = inl (report-first r out a.finished h)
report-IsResult q r a out (inr h) = inr h

report-waiting :
    {R : Type 0} (r : Outcome R) (ch : Option (Outcome R)) (done : List (Outcome R))
    → ch ≡ get_elem? done 0
    → elim ch as (λ _. Option (Outcome R)) [ none ↦ some r | some first ↦ some first ]
      ≡ get_elem? (done ++ (r ∷ [])) 0
report-waiting r ch [] h = rw h refl
report-waiting r ch (x ∷ done) h = rw h refl

report-IsSettled :
    {R : Type 0} (q : Request R) (r : Outcome R) (a : Shared R) (m : Main R)
    → IsSettled q a m
    → IsSettled q (report r a) m
report-IsSettled q r a (waiting _) h = report-waiting r a.state.res_ch a.finished h
report-IsSettled q r a draining h = h
report-IsSettled q r a (finishing out) h = (h.0, report-IsResult q r a out h.1)
report-IsSettled q r a (recycling out) h = (h.0, report-IsResult q r a out h.1)
report-IsSettled q r a (returned out) h = (h.0, report-IsResult q r a out h.1)

AttemptMove-IsSettled :
    {R : Type 0} (q : Request R) {a c : Shared R} {p t : Attempt} (m : Main R)
    → AttemptMove a p c t
    → owes p + main_holds m ≤ 1
    → IsSettled q a m
    → IsSettled q c m
AttemptMove-IsSettled q {a} m (answer r) h k = report-IsSettled q r a m k
AttemptMove-IsSettled q (waiting _) (exit _) h k = k
AttemptMove-IsSettled q m (exit _) h k = k
AttemptMove-IsSettled q m (exit_last _) h k = k
AttemptMove-IsSettled q (waiting _) put_back h k = absurd (omega arith)
AttemptMove-IsSettled q m put_back h k = k

ctx_ends-IsSettled :
    {R : Type 0} (q : Request R) (a : Shared R) (m : Main R)
    → IsSettled q a m
    → IsSettled q (record a { ctx_done = true }) m
ctx_ends-IsSettled q a (waiting _) h = h
ctx_ends-IsSettled q a draining h = (h.0, refl)
ctx_ends-IsSettled q a (finishing out) (c, inl h) = (c, inl h)
ctx_ends-IsSettled q a (finishing out) (c, inr h) = (c, inr (refl, h.1))
ctx_ends-IsSettled q a (recycling out) (c, inl h) = (c, inl h)
ctx_ends-IsSettled q a (recycling out) (c, inr h) = (c, inr (refl, h.1))
ctx_ends-IsSettled q a (returned out) (c, inl h) = (c, inl h)
ctx_ends-IsSettled q a (returned out) (c, inr h) = (c, inr (refl, h.1))

Step-IsSettled :
    {R : Type 0} (q : Request R) {s t : System R}
    → Step q s t
    → Fired q s
    → Counts s.shared
        (main_holds s.main + weigh holds q.max_attempts s.attempt)
        (main_owes s.main + weigh owes q.max_attempts s.attempt)
    → IsSettled q s.shared s.main
    → IsSettled q t.shared t.main
Step-IsSettled q (main_moves mv) f k h = MainMove-IsSettled q mv h
Step-IsSettled q {s} (fire i e lt) f k h = rw e at h
Step-IsSettled q {s} (attempt_moves i mv) f k h = AttemptMove-IsSettled q s.main mv alone h
  where
    below : i < q.max_attempts
    below = ground (arith, f.beyond i, AttemptMove-not_unfired mv)

    alone : owes (s.attempt i) + main_holds s.main ≤ 1
    alone = ground (arith, k.counted, k.due, k.none_due, weight-le-weigh owes s.attempt below)
Step-IsSettled q {s} (ctx_ends e) f k h = ctx_ends-IsSettled q s.shared s.main h

Reach-IsSettled :
    {R : Type 0} (q : Request R) {pooled : HedgeState R} {n : ℕ} {s : System R}
    → Reach q pooled n s
    → pooled.res_ch ≡ none
    → 1 ≤ q.max_attempts
    → suc q.max_attempts < 2 ^ 32
    → IsSettled q s.shared s.main
Reach-IsSettled q start e h small = e
Reach-IsSettled q {pooled} (later r st) e h small =
    Step-IsSettled q st (Reach-Fired q pooled r h) (Reach-Counts q small r h)
      (Reach-IsSettled q r e h small)

-- Where a call that started with an empty channel has returned, the context of its attempts is
-- cancelled, and its result is the first that any attempt reported, an error as well as a response;
-- or the context of the caller was done, and the result is the zero response with its error. The
-- attempts are fewer than 2 ^ 32 - 1.
pub first_wins :
    {R : Type 0} (q : Request R) {pooled : HedgeState R} {n : ℕ} {s : System R} (out : Outcome R)
    → Reach q pooled n s
    → pooled.res_ch ≡ none
    → 1 ≤ q.max_attempts
    → suc q.max_attempts < 2 ^ 32
    → s.main ≡ returned out
    → (s.shared.cancelled ≡ true) × IsResult q s.shared out
first_wins q {s = s} out r e h small done = rw done at (Reach-IsSettled q r e h small)

-- What the channel holds while the coordinator waits.
pub Reach-waiting :
    {R : Type 0} (q : Request R) {pooled : HedgeState R} {n : ℕ} {s : System R} (k : ℕ)
    → Reach q pooled n s
    → pooled.res_ch ≡ none
    → 1 ≤ q.max_attempts
    → suc q.max_attempts < 2 ^ 32
    → s.main ≡ waiting k
    → s.shared.state.res_ch ≡ get_elem? s.shared.finished 0
Reach-waiting q {s = s} k r e h small waits = rw waits at (Reach-IsSettled q r e h small)
