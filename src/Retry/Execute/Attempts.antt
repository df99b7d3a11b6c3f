-- ===== src/Retry/Execute/Attempts.antt =====
-- retry/retry.go: how many attempts the loop makes, and what becomes of their responses.
use resili.Prelude.{
  ℕ, zero, suc, ◌+◌, ◌≤◌, ◌≡◌, refl, sym, ap, ◌∙◌, Bool, false, ℤ, List, [], ◌∷◌, ◌++◌, Option,
  none, some, arith, Bool-cases, inl, inr,
}
use mathlib.Core.List.{append-nil}
use resili.Errors.{Err, Outcome}
use resili.Retry.Policy.{RetryPolicy}
use resili.Retry.Execute.{
  Settings, settings, has_passed, try_limit, Turn, return, again, turn, after_attempt, wait, loop,
  execute_with_result, rounds,
}
use resili.Retry.Execute.World.{
  release, attempt_of, World, world_clock, budget_of, retry_action, Caller, bodies,
}

-- How a turn leaves the accounts, with `n` attempts counted: no more were made, and every body that
-- was opened has been released, in order, but for the one that is returned.
abbrev Accounts : {B : Type 0} → ℕ → Turn (World B) (Option B) → Type 0
Accounts n (return (r, e) w) = (w.executed ≤ n) × (w.opened ≡ w.released ++ bodies r)
Accounts n (again now e w) = (w.executed ≡ n) × (w.opened ≡ w.released)

module _ {B : Type 0} where
  release-balanced :
      (r : Option B) (w : World B)
      → w.opened ≡ w.released ++ bodies r
      → (release r w).opened ≡ (release r w).released
  release-balanced none w h = h ∙ append-nil w.released
  release-balanced (some b) w h = h

  release-executed : (r : Option B) (w : World B) → (release r w).executed ≡ w.executed
  release-executed none w = refl
  release-executed (some b) w = refl

module _ {B : Type 0} (c : Caller B) (s : Settings (World B) (Option B)) (b : Bool) where
  abbrev with_budget : Settings (World B) (Option B)
  with_budget = record s { budget = budget_of b }

  wait-Accounts :
      (n attempt : ℕ) (now : ℤ) (err : Option Err) (w : World B)
      → w.executed ≡ n
      → w.opened ≡ w.released
      → Accounts n (wait world_clock none (retry_action c) with_budget attempt now err w)
  unfolding wait
  wait-Accounts n attempt now err w e h = ground (arith, append-nil {0} w.released)

  after_attempt-Accounts :
      (n attempt : ℕ) (try_deadline now : ℤ) (r : Option B) (err : Option Err) (w : World B)
      → w.executed ≡ n
      → w.opened ≡ w.released ++ bodies r
      → Accounts n (
          after_attempt world_clock none
            (retry_action c)
            with_budget
            attempt
            try_deadline
            now
            r
            err
            w)
  unfolding after_attempt wait
  after_attempt-Accounts n attempt try_deadline now none err w e h =
      ground (arith, append-nil {0} w.released)
  after_attempt-Accounts n attempt try_deadline now (some body) err w e h =
      ground (arith, append-nil {0} (w.released ++ body ∷ []))

  turn-Accounts :
      (n attempt : ℕ) (now : ℤ) (w : World B)
      → w.executed ≡ n
      → w.opened ≡ w.released
      → Accounts (suc n) (turn world_clock none (retry_action c) with_budget attempt now none w)
  unfolding turn
  turn-Accounts n attempt now w e h = elim (Bool-cases (has_passed c.request_deadline now)) [
    | inl late ↦ rw late (omega arith, h ∙ sym (append-nil w.released))
    | inr early ↦ rw early (
        after_attempt-Accounts (suc n) attempt (try_limit with_budget now) (w.clock w.reads)
          (w.outcomes w.executed).0 (w.outcomes w.executed).1 (world_clock.now (attempt_of w).1).1
          (ap suc e) (ap (λ (l : List B). l ++ bodies (w.outcomes w.executed).0) h))
  ]

  -- A run of the loop from accounts that balance.
  record Sums (w : World B) (left : ℕ) (o : Outcome (Option B) × World B) : Type 0 where
    few : o.1.executed ≤ w.executed + left
    balanced : o.1.opened ≡ o.1.released ++ bodies o.0.0

  loop-Sums :
      (left attempt : ℕ) (now : ℤ) (err : Option Err) (w : World B)
      → w.opened ≡ w.released
      → Sums w left (loop world_clock none (retry_action c) with_budget left attempt now err w)
  unfolding loop
  loop-Sums zero attempt now err w h = record {
    few = omega arith;
    balanced = h ∙ sym (append-nil w.released);
  }
  loop-Sums (suc left) attempt now err w h =
      go (turn world_clock none (retry_action c) with_budget attempt now none w)
        (turn-Accounts w.executed attempt now w refl h) (loop-Sums left (suc attempt))
    where
      go :
          (t : Turn (World B) (Option B))
          → Accounts (suc w.executed) t
          → ((now' : ℤ) (err' : Option Err) (w₁ : World B)
              → w₁.opened ≡ w₁.released
              → Sums w₁ left (
                  loop world_clock none
                    (retry_action c)
                    with_budget
                    left
                    (suc attempt)
                    now'
                    err'
                    w₁))
          → Sums w (suc left) (elim t [
            | return outcome w₁ ↦ (outcome, w₁)
            | again now' err' w₁ ↦
                loop world_clock none (retry_action c) with_budget left (suc attempt) now' err' w₁
          ])
      go (return (r, e) w₁) a rest = record { few = omega (arith, a.0); balanced = a.1 }
      go (again now' err' w₁) a rest = record {
        few = omega (arith, (rest now' err' w₁ a.1).few, a.0);
        balanced = (rest now' err' w₁ a.1).balanced;
      }

-- A policy that is nil, or one whose budget is the world's or none.
abbrev pub policy_of :
    {B : Type 0}
    → Bool
    → Option (RetryPolicy (World B) (Option B))
    → Option (RetryPolicy (World B) (Option B))
policy_of b none = none
policy_of b (some p) = some (record p { budget = budget_of b })

-- The most attempts that a policy allows.
abbrev pub attempt_limit : {B : Type 0} → Option (RetryPolicy (World B) (Option B)) → ℕ
attempt_limit none = 1
attempt_limit (some p) = rounds p.max_attempts

-- The loop makes no more attempts than the policy allows, one without a policy. Of the response bodies
-- that the attempts opened each has been released exactly once, in order, except that of the response
-- that the caller gets, whatever ended the loop: no response leaks, and none is released twice.
pub execute_accounts :
    {B : Type 0} (c : Caller B) (b : Bool) (p : Option (RetryPolicy (World B) (Option B)))
    (w : World B)
    → w.opened ≡ w.released
    → let ((resp, err), w') =
        execute_with_result world_clock none (policy_of b p) (retry_action c) w in
      (w'.executed ≤ w.executed + attempt_limit p) × (w'.opened ≡ w'.released ++ bodies resp)
unfolding execute_with_result
execute_accounts c b none w h =
    let s = settings world_clock none (retry_action c) none in
    let sums = loop-Sums c s false s.attempts 0 c.now none w h in (sums.few, sums.balanced)
execute_accounts c b (some p) w h =
    let s = settings world_clock none (retry_action c) (policy_of b (some p)) in
    let sums = loop-Sums c s b s.attempts 0 c.now none w h in (sums.few, sums.balanced)
