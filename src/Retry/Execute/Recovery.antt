-- ===== src/Retry/Execute/Recovery.antt =====
-- retry/retry.go: a loop whose first attempt fails in a way that is retried, and whose second one
-- succeeds.
use resili.Prelude.{suc, ℕ, ◌≡◌, ◌∙◌, refl, true, false, ℤ, pos, none, Option}
use resili.Errors.{Err}
use resili.Environment.{Clock}
use resili.Retry.Execute.{RetryAction, Settings, turn, after_attempt, wait, again, return, loop}

module _ {W R : Type 0} (clock : Clock W) (nil : R) (action : RetryAction W R)
    (s : Settings W R) where
  -- No deadline limits the attempts, and no budget.
  pub record IsUnlimited : Type 0 where
    pub no_deadline : action.request_deadline ≡ pos 0
    pub no_try_deadline : s.per_try_timeout ≡ pos 0
    pub no_budget : s.budget ≡ none

  -- What the clock shows when the wait after the failed attempt number `attempt` is over.
  abbrev pub woken : ℕ → W → ℤ × W
  woken attempt w =
      let ((resp, err), w₁) = action.execute w in
      let w₂ = action.discard_attempt resp (clock.now w₁).1 in
      clock.now (clock.sleep (s.backoff_fn attempt) w₂)

  abbrev pub waited : ℕ → W → W
  waited attempt w = (woken attempt w).1

  turn_retries :
      (attempt : ℕ) (now : ℤ) (w : W)
      → IsUnlimited
      → action.is_success (action.execute w).0.0 (action.execute w).0.1 ≡ false
      → s.should_retry_fn (action.execute w).0.0 (action.execute w).0.1 ≡ true
      → turn clock nil action s attempt now nil w
        ≡ again (woken attempt w).0 (action.execute w).0.1 (waited attempt w)
  unfolding turn after_attempt wait
  turn_retries attempt now w u failed retried =
      rw (u.no_deadline, u.no_try_deadline, u.no_budget, failed, retried) refl

  turn_succeeds :
      (attempt : ℕ) (now : ℤ) (w : W)
      → IsUnlimited
      → action.is_success (action.execute w).0.0 (action.execute w).0.1 ≡ true
      → turn clock nil action s attempt now nil w
        ≡ return ((action.execute w).0.0, none) (clock.now (action.execute w).1).1
  unfolding turn after_attempt
  turn_succeeds attempt now w u good = rw (u.no_deadline, u.no_try_deadline, u.no_budget, good) refl

  loop_retries :
      (left attempt : ℕ) (now : ℤ) (err : Option Err) (w : W)
      → IsUnlimited
      → action.is_success (action.execute w).0.0 (action.execute w).0.1 ≡ false
      → s.should_retry_fn (action.execute w).0.0 (action.execute w).0.1 ≡ true
      → loop clock nil action s (suc left) attempt now err w
        ≡ loop clock nil action s left
            (suc attempt)
            (woken attempt w).0
            (action.execute w).0.1
            (waited attempt w)
  unfolding loop
  loop_retries left attempt now err w u failed retried =
      rw (turn_retries attempt now w u failed retried, loop)

  loop_succeeds :
      (left attempt : ℕ) (now : ℤ) (err : Option Err) (w : W)
      → IsUnlimited
      → action.is_success (action.execute w).0.0 (action.execute w).0.1 ≡ true
      → loop clock nil action s (suc left) attempt now err w
        ≡ (((action.execute w).0.0, none), (clock.now (action.execute w).1).1)
  unfolding loop
  loop_succeeds left attempt now err w u good = rw (turn_succeeds attempt now w u good, loop)

  pub second_succeeds :
      (left attempt : ℕ) (now : ℤ) (err : Option Err) (w : W)
      → IsUnlimited
      → action.is_success (action.execute w).0.0 (action.execute w).0.1 ≡ false
      → s.should_retry_fn (action.execute w).0.0 (action.execute w).0.1 ≡ true
      → let o = action.execute (waited attempt w) in
        action.is_success o.0.0 o.0.1 ≡ true
        → loop clock nil action s (suc (suc left)) attempt now err w
          ≡ ((o.0.0, none), (clock.now o.1).1)
  second_succeeds left attempt now err w u failed retried good =
      loop_retries (suc left) attempt now err w u failed retried
      ∙ loop_succeeds left (suc attempt) _ _ (waited attempt w) u good
