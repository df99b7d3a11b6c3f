-- ===== src/Examples/Http/Recovers.antt =====
-- examples/http/http.go: the request, when the server fails at first.
use resili.Prelude.{
  ℕ, zero, suc, ◌+◌, ◌*◌, ◌^◌, ◌≤◌, ◌<◌, ◌≡◌, refl, ℤ, pos, Option, none, some, ◌<ℤ◌, arith, ◌∙◌,
  ap,
}
use mathlib.Core.Path.{subst}
use resili.Errors.{Err, Outcome}
use resili.Retry.Execute.{RetryAction, Settings, turn, again, return, loop}
use resili.Http.Classifier.{Response}
use resili.Examples.Http.{World, world_clock}
use resili.Examples.Http.Attempts.{
  names, IsRetried, success_budget, action, limits, failed, answered, Failed, failed-Failed,
  turn_fails, turn_succeeds, Waits-whole, pause, delay, delay_le, first_delays,
}

module _ {Q : Type 0} (q : Option Q) (deadline : ℕ) (now : ℤ) (small : deadline < 2 ^ 62) where
  abbrev pub acts : RetryAction World (Option Response)
  acts = action q deadline now small

  abbrev pub limited : Settings World (Option Response)
  limited = limits q deadline now small

  -- The loop from its attempt `i` on, of which `k` more fail, and with a good answer after them.
  pub record Recovers (k : ℕ) (code : ℤ) (w : World) (o : Outcome (Option Response) × World)
      : Type 0 where
    pub held : ℕ
    pub reply : o.0 ≡ (some (record { status_code = code; body = some held }), none)
    pub served : o.1.served ≡ w.served + suc k
    pub made : o.1.made ≡ suc held
    pub closed : o.1.closed ≡ names held
    pub limiter : o.1.limiter ≡ w.limiter
    pub cb : o.1.cb ≡ w.cb
    pub late : w.time ≤ o.1.time
    pub early : o.1.time ≤ deadline

  module _ {w w' : World} {d retries : ℕ} (k : ℕ) (f : Failed w d retries w') where
    later_fails :
        ((j : ℕ) → j < suc k → IsRetried (w.replies (w.served + j)))
        → (j : ℕ) → j < k
        → IsRetried (w'.replies (w'.served + j))
    later_fails fails j lt = rw f.replies (
        subst (λ (n : ℕ). IsRetried (w.replies n)) (omega (arith, f.served))
          (fails (suc j) (omega arith)))

    later_answer :
        {reply : Option ℤ × Option Err}
        → w.replies (w.served + suc k) ≡ reply
        → w'.replies (w'.served + k) ≡ reply
    later_answer e = rw f.replies (ap w.replies (omega (arith, f.served)) ∙ e)

    later-Recovers :
        {code : ℤ} {o : Outcome (Option Response) × World}
        → Recovers k code w' o
        → Recovers (suc k) code w o
    later-Recovers r = record {
      held = r.held;
      reply = r.reply;
      served = omega (arith, r.served, f.served);
      made = r.made;
      closed = r.closed;
      limiter = r.limiter ∙ f.limiter;
      cb = r.cb ∙ f.cb;
      late = omega (arith, r.late, f.time);
      early = r.early;
    }

  pub loop_again :
      (left i : ℕ) (now now' : ℤ) (err err' : Option Err) (w w' : World)
      → turn world_clock none acts limited i now none w ≡ again now' err' w'
      → loop world_clock none acts limited (suc left) i now err w
        ≡ loop world_clock none acts limited left (suc i) now' err' w'
  unfolding loop
  loop_again left i now now' err err' w w' e = rw (e, loop)

  loop_returns :
      (left i : ℕ) (now : ℤ) (err : Option Err) (w w' : World) (outcome : Outcome (Option Response))
      → turn world_clock none acts limited i now none w ≡ return outcome w'
      → loop world_clock none acts limited (suc left) i now err w ≡ (outcome, w')
  unfolding loop
  loop_returns left i now err w w' outcome e = rw (e, loop)

  pub loop-Recovers :
      (k left i : ℕ) (code : ℤ) (err : Option Err) (w : World)
      → ((j : ℕ) → j < k → IsRetried (w.replies (w.served + j)))
      → w.replies (w.served + k) ≡ (some code, none)
      → code <ℤ pos 400
      → ((j : ℕ) → w.latency j ≤ 1_900_000_000)
      → ((t : ℕ) → w.late t ≤ 100_000_000)
      → k < left
      → i + k ≤ 2
      → w.time + 4_000_000_000 * k + 2_000_000_000 ≤ deadline
      → w.budget ≡ success_budget i
      → w.closed ≡ names w.made
      → Recovers k code w (loop world_clock none acts limited left i (pos w.time) err w)
  loop-Recovers zero zero i code err w fails e good quick punctual lt few le b c = elim lt [ ]
  loop-Recovers (suc k) zero i code err w fails e good quick punctual lt few le b c = elim lt [ ]
  loop-Recovers zero (suc left) i code err w fails e good quick punctual lt few le b c =
      rw
        (loop_returns left i (pos w.time) err w (answered w) _ (
          turn_succeeds q deadline now small i code w (ap w.replies (omega arith) ∙ e) good
            (omega (arith, quick w.served)) (omega arith)))
        (record {
          held = w.made;
          reply = refl;
          served = omega arith;
          made = refl;
          closed = c;
          limiter = refl;
          cb = refl;
          late = omega arith;
          early = omega (arith, quick w.served);
        })
  loop-Recovers (suc k) (suc left) i code err w fails e good quick punctual lt few le b c =
      let first : IsRetried (w.replies w.served) =
        subst (λ (n : ℕ). IsRetried (w.replies n)) (omega arith) (fails 0 (omega arith)) in
      let w' = failed (pause i w) i w in
      let f : Failed w (pause i w) (suc i) w' = failed-Failed (pause i w) i w first c in
      let soon = delay_le i (omega arith) in
      let slow = punctual (w.time + w.latency w.served) in
      let rest : Recovers k code w' (
          loop world_clock none acts limited left (suc i) (pos w'.time) (w.replies w.served).1 w') =
        loop-Recovers k left (suc i) code (w.replies w.served).1 w' (later_fails k f fails)
          (later_answer k f e) good (rw f.latency quick) (rw f.late punctual) (omega arith)
          (omega arith) (omega (arith, f.time, quick w.served, soon, slow)) f.budget f.closed in
      rw
        (loop_again left i (pos w.time) (pos w'.time) err (w.replies w.served).1 w w' (
          turn_fails q deadline now small i (pause i w) i w first
            (Waits-whole q deadline now small i (delay i) w.late _ (first_delays i (omega arith))
              (omega (arith, soon, quick w.served)))
            (omega (arith, quick w.served)) (omega arith) b (omega arith)))
        (later-Recovers k f rest)
