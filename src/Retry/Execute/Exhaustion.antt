-- ===== src/Retry/Execute/Exhaustion.antt =====
-- retry/retry.go: a loop whose attempts all fail in a way that is retried.
use resili.Prelude.{
  ℕ, zero, suc, ◌+◌, ◌-◌, ◌≡◌, refl, sym, ap, ◌∙◌, true, false, ℤ, pos, negsuc, [], ◌∷◌, ◌++◌,
  Option, none, some, arith, length, length-append,
}
use mathlib.Core.Path.{subst}
use resili.Errors.{Err, Outcome}
use resili.Retry.Policy.{RetryPolicy}
use resili.Retry.Execute.{
  Settings, settings, turn, after_attempt, wait, again, loop, execute_with_result, rounds,
}
use resili.Retry.Execute.World.{World, world_clock, retry_action, Caller, release, attempt_of}

-- Every attempt fails, and in a way that is retried; no deadline limits the attempts, and no budget.
record AlwaysFails {B : Type 0} (c : Caller B) (s : Settings (World B) (Option B))
    (outcomes : ℕ → Outcome (Option B)) : Type 0 where
  failing : (k : ℕ) → c.is_success (outcomes k).0 (outcomes k).1 ≡ false
  retried : (k : ℕ) → s.should_retry_fn (outcomes k).0 (outcomes k).1 ≡ true
  no_deadline : c.request_deadline ≡ pos 0
  no_try_deadline : s.per_try_timeout ≡ pos 0
  no_budget : s.budget ≡ none

module _ {B : Type 0} (c : Caller B) (s : Settings (World B) (Option B)) where
  abbrev after : ℕ → World B → World B
  after attempt w =
      let o = w.outcomes w.executed in
      let w₁ = release o.0 (world_clock.now (attempt_of w).1).1 in
      (world_clock.now (world_clock.sleep (s.backoff_fn attempt) w₁)).1

  turn_fails :
      (attempt : ℕ) (now : ℤ) (w : World B)
      → AlwaysFails c s w.outcomes
      → turn world_clock none (retry_action c) s attempt now none w
        ≡ again (after attempt w).last (w.outcomes w.executed).1 (after attempt w)
  unfolding turn after_attempt wait
  turn_fails attempt now w h = ground (arith, h.failing w.executed, h.retried w.executed)

  loop_fails :
      (left attempt : ℕ) (now : ℤ) (err : Option Err) (w : World B)
      → AlwaysFails c s w.outcomes
      → loop world_clock none (retry_action c) s (suc left) attempt now err w
        ≡ loop world_clock none
            (retry_action c)
            s
            left
            (suc attempt)
            (after attempt w).last
            (w.outcomes w.executed).1
            (after attempt w)
  unfolding loop
  loop_fails left attempt now err w h = rw (turn_fails attempt now w h, loop)

  record Follows (w w' : World B) : Type 0 where
    outcomes : w'.outcomes ≡ w.outcomes
    executed : w'.executed ≡ suc w.executed
    slept : length w'.slept ≡ suc (length w.slept)

  release-Follows :
      (r : Option B) (d : ℤ) (w : World B)
      → let w₁ = release r w in
        (w₁.outcomes ≡ w.outcomes)
        × (w₁.executed ≡ w.executed)
        × (length (w₁.slept ++ d ∷ []) ≡ suc (length w.slept))
  release-Follows none d w = (refl, refl, omega (arith, length-append w.slept (d ∷ [])))
  release-Follows (some b) d w = (refl, refl, omega (arith, length-append w.slept (d ∷ [])))

  after-Follows : (attempt : ℕ) (w : World B) → Follows w (after attempt w)
  after-Follows attempt w =
      let (o, e, l) =
        release-Follows (w.outcomes w.executed).0 (s.backoff_fn attempt)
          (world_clock.now (attempt_of w).1).1 in
      record { outcomes = o; executed = e; slept = l }

  record Exhausts (w : World B) (left : ℕ) (o : Outcome (Option B) × World B) : Type 0 where
    outcome : o.0 ≡ (none, c.final_err (w.outcomes (w.executed + left)).1)
    executed : o.1.executed ≡ w.executed + suc left
    slept : length o.1.slept ≡ length w.slept + suc left

  loop-Exhausts :
      (left attempt : ℕ) (now : ℤ) (err : Option Err) (w : World B)
      → AlwaysFails c s w.outcomes
      → Exhausts w left (loop world_clock none (retry_action c) s (suc left) attempt now err w)
  unfolding loop
  loop-Exhausts zero attempt now err w h =
      let f = after-Follows attempt w in
      rw (loop_fails zero attempt now err w h) (record {
        outcome = last_err (omega arith);
        executed = omega (arith, f.executed);
        slept = omega (arith, f.slept);
      })
    where
      last_err :
          {k : ℕ}
          → w.executed ≡ k
          → ◌≡◌ {A = Outcome (Option B)}
              (none, c.final_err (w.outcomes w.executed).1)
              (none, c.final_err (w.outcomes k).1)
      last_err e = ap (λ (k : ℕ). (none, c.final_err (w.outcomes k).1)) e
  loop-Exhausts (suc left) attempt now err w h =
      let f = after-Follows attempt w in
      let w₁ = after attempt w in
      let rest =
        loop-Exhausts left (suc attempt) w₁.last (w.outcomes w.executed).1 w₁
          (subst (AlwaysFails c s) (sym f.outcomes) h) in
      rw (loop_fails (suc left) attempt now err w h) (record {
        outcome = rest.outcome ∙ same f.outcomes (omega (arith, f.executed));
        executed = omega (arith, f.executed, rest.executed);
        slept = omega (arith, f.slept, rest.slept);
      })
    where
      same :
          {os : ℕ → Outcome (Option B)} {j k : ℕ}
          → os ≡ w.outcomes
          → j ≡ k
          → ◌≡◌ {A = Outcome (Option B)}
              (none, c.final_err (os j).1)
              (none, c.final_err (w.outcomes k).1)
      same p q = λ i. (none, c.final_err (p i (q i)).1)

rounds_pos : (m : ℤ) → rounds m ≡ suc (rounds m - 1)
rounds_pos (pos zero) = omega arith
rounds_pos (pos (suc n)) = omega arith
rounds_pos (negsuc n) = omega arith

-- If every attempt fails in a way that the adapter retries, and neither a deadline nor a budget limits
-- the attempts, the loop makes all that the policy allows and returns no response and the adapter's
-- form of the last error. It sleeps once after every attempt, after the last one too.
pub execute_exhausts :
    {B : Type 0} (c : Caller B) (p : RetryPolicy (World B) (Option B)) (w : World B)
    → p.budget ≡ none
    → p.try_deadline ≡ pos 0
    → p.should_retry ≡ some c.should_retry
    → c.request_deadline ≡ pos 0
    → ((k : ℕ) → c.is_success (w.outcomes k).0 (w.outcomes k).1 ≡ false)
    → ((k : ℕ) → c.should_retry (w.outcomes k).0 (w.outcomes k).1 ≡ true)
    → let (o, w') = execute_with_result world_clock none (some p) (retry_action c) w in
      (o ≡ (none, c.final_err (w.outcomes (w.executed + (rounds p.max_attempts - 1))).1))
      × (w'.executed ≡ w.executed + rounds p.max_attempts)
      × (length w'.slept ≡ length w.slept + rounds p.max_attempts)
unfolding execute_with_result
execute_exhausts {B} c p w e t r d fails retries = (
  x.outcome,
  omega (arith, x.executed, rounds_pos p.max_attempts),
  omega (arith, x.slept, rounds_pos p.max_attempts),
)
  where
    s : Settings (World B) (Option B)
    s = settings world_clock none (retry_action c) (some p)

    h : AlwaysFails c s w.outcomes
    h = record {
      failing = fails;
      retried = λ k. rw r (retries k);
      no_deadline = d;
      no_try_deadline = t;
      no_budget = e;
    }

    from :
        (n left : ℕ)
        → n ≡ suc left
        → Exhausts c s w left (loop world_clock none (retry_action c) s n 0 c.now none w)
    from n left q = rw q (loop-Exhausts c s left 0 c.now none w h)

    x :
        Exhausts c s w
          (rounds p.max_attempts - 1)
          (loop world_clock none (retry_action c) s (rounds p.max_attempts) 0 c.now none w)
    x = from (rounds p.max_attempts) (rounds p.max_attempts - 1) (rounds_pos p.max_attempts)
