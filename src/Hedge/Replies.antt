-- ===== src/Hedge/Replies.antt =====
-- hedge/hedge.go, ExecuteWithResultCtx: what the caller gets of what the function gives.
use mathlib.Core.Path.{subst}
use resili.Prelude.{
  ◌≤◌, ◌≡◌, ◌⊎◌, inl, inr, ℤ, pos, none, some, List, [], ◌∷◌, arith, get_elem?, ◌<ℤ◌, length,
}
use resili.Errors.{Err, Outcome}
use resili.Hedge.{HedgeState}
use resili.Hedge.Race.{Request}
use resili.Hedge.Race.Fanout.{results-le}
use resili.Hedge.Execute.{Execute, direct, raced, Execute-answers}
use resili.Retry.Execute.{rounds}

abbrev pub All : {R : Type 0} → (R → Type 0) → List R → Type 0
All P [] = Unit
All P (r ∷ rs) = P r × All P rs

some_inj : {R : Type 0} {a b : R} → some a ≡ some b → a ≡ b
some_inj e = cc

All-first :
    {R : Type 0} (P : R → Type 0) (rs : List R) (r : R) → All P rs → get_elem? rs 0 ≡ some r → P r
All-first P [] r h e = absurd (ground arith)
All-first P (s ∷ rs) r h e = subst P (some_inj e) h.0

rounds-positive : (n : ℤ) → 1 ≤ rounds n
rounds-positive n = ground arith

-- What the function may give, the call gives, or the zero response with the error of the context; and
-- the function is asked at most as often as the attempts allow, and at least once.
pub Execute-All :
    {R : Type 0} (delay max_attempts : ℤ) (zero_value : R) (ctx_err : Err) {pooled : HedgeState R}
    {finished : List (Outcome R)} (out : Outcome R) (P : Outcome R → Type 0)
    → Execute delay max_attempts zero_value ctx_err pooled finished out
    → All P finished
    → pooled.res_ch ≡ none
    → max_attempts <ℤ pos 4_294_967_295
    → (P out ⊎ (out ≡ (zero_value, some ctx_err))) × (length finished ≤ rounds max_attempts)
Execute-All delay max_attempts zero_value ctx_err out P (direct fast _) all e small =
    (inl all.0, rounds-positive max_attempts)
Execute-All {R} delay max_attempts zero_value ctx_err {finished = finished} out P
      (raced slow m is_m _ r done) all e small =
    (
      elim (Execute-answers delay max_attempts zero_value ctx_err out (raced slow m is_m out r done)
          e small) [
            | inl (fast, one) ↦ absurd (ground arith)
            | inr (_, inl first) ↦ inl (All-first P finished out all first)
            | inr (_, inr gave_up) ↦ inr gave_up
          ],
      ground (arith, (results-le q r (omega (arith, several))).0, several),
    )
  where
    q : Request R
    q = record { max_attempts = m; zero_value = zero_value; ctx_err = ctx_err }

    several : 2 ≤ m
    several = ground arith
