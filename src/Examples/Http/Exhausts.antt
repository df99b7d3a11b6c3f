-- ===== src/Examples/Http/Exhausts.antt =====
-- examples/http/http.go: the retry loop, when every attempt fails.
use resili.Prelude.{ℕ, ◌+◌, ◌^◌, ◌≤◌, ◌<◌, ◌≡◌, refl, ℤ, pos, Option, none, arith, ◌∙◌, ap}
use mathlib.Core.Path.{subst}
use resili.Errors.{Err, Outcome}
use resili.Retry.Execute.{loop}
use resili.Http.Classifier.{Response}
use resili.Examples.Http.{World, world_clock}
use resili.Examples.Http.Attempts.{
  names, IsRetried, success_budget, failed, Failed, failed-Failed, turn_fails, pause, delay,
  first_delays, Waits-whole,
}
use resili.Examples.Http.Recovers.{acts, limited, loop_again}
use resili.Http.Classifier.{final_err}

module _ {Q : Type 0} (q : Option Q) (deadline : ℕ) (now : ℤ) (small : deadline < 2 ^ 62) where
  -- The loop has made its three attempts.
  pub record Exhausts (w : World) (o : Outcome (Option Response) × World) : Type 0 where
    pub reply : o.0 ≡ (none, final_err (w.replies (w.served + 2)).1)
    pub served : o.1.served ≡ w.served + 3
    pub closed : o.1.closed ≡ names o.1.made
    pub limiter : o.1.limiter ≡ w.limiter
    pub cb : o.1.cb ≡ w.cb
    pub early : o.1.time ≤ deadline

  module _ (w : World) (fails : (j : ℕ) → j < 3 → IsRetried (w.replies (w.served + j)))
      (quick : (j : ℕ) → w.latency j ≤ 900_000_000) (punctual : (t : ℕ) → w.late t ≤ 100_000_000)
      (room : w.time + 10_000_000_000 ≤ deadline) (budget : w.budget ≡ success_budget 0)
      (tidy : w.closed ≡ names w.made) where
    abbrev once : World
    once = failed (pause 0 w) 0 w

    first : IsRetried (w.replies w.served)
    first = subst (λ (n : ℕ). IsRetried (w.replies n)) (omega arith) (fails 0 (omega arith))

    f₁ : Failed w (pause 0 w) 1 once
    f₁ = failed-Failed (pause 0 w) 0 w first tidy

    abbrev twice : World
    twice = failed (pause 1 once) 1 once

    retried_at :
        (v : World) (n : ℕ)
        → n < 3
        → v.replies ≡ w.replies
        → v.served ≡ w.served + n
        → IsRetried (v.replies v.served)
    retried_at v n lt e h = rw (e, h) (fails n lt)

    second : IsRetried (once.replies once.served)
    second = retried_at once 1 (omega arith) f₁.replies (omega (arith, f₁.served))

    f₂ : Failed once (pause 1 once) 2 twice
    f₂ = failed-Failed (pause 1 once) 1 once second f₁.closed

    third : IsRetried (twice.replies twice.served)
    third =
        retried_at twice 2 (omega arith) (f₂.replies ∙ f₁.replies)
          (omega (arith, f₂.served, f₁.served))

    quick_at : (v : World) → v.latency ≡ w.latency → v.latency v.served ≤ 900_000_000
    quick_at v e = rw e (quick v.served)

    quick₁ : once.latency once.served ≤ 900_000_000
    quick₁ = quick_at once f₁.latency

    quick₂ : twice.latency twice.served ≤ 900_000_000
    quick₂ = quick_at twice (f₂.latency ∙ f₁.latency)

    late_at : (v : World) (t : ℕ) → v.late ≡ w.late → v.late t ≤ 100_000_000
    late_at v t e = rw e (punctual t)

    once_late : once.late (once.time + once.latency once.served) ≤ 100_000_000
    once_late = late_at once _ f₁.late

    twice_late : twice.late (twice.time + twice.latency twice.served) ≤ 100_000_000
    twice_late = late_at twice _ (f₂.late ∙ f₁.late)

    once_time : once.time ≤ w.time + 2_000_000_000
    once_time = omega (arith, f₁.time, quick w.served, punctual (w.time + w.latency w.served))

    twice_time : twice.time ≤ w.time + 5_000_000_000
    twice_time = omega (arith, f₂.time, once_time, quick₁, once_late)

    reply_at :
        (v : World) (n : ℕ)
        → v.replies ≡ w.replies
        → v.served ≡ w.served + n
        → final_err (v.replies v.served).1 ≡ final_err (w.replies (w.served + n)).1
    reply_at v n e h = rw (e, h) refl

    abbrev thrice : World
    thrice = failed (pause 2 twice) 2 twice

    f₃ : Failed twice (pause 2 twice) 3 thrice
    f₃ = failed-Failed (pause 2 twice) 2 twice third f₂.closed

    three_turns :
        loop world_clock none
          (acts q deadline now small)
          (limited q deadline now small)
          3
          0
          (pos w.time)
          none
          w
        ≡ ((none, final_err (twice.replies twice.served).1), thrice)
    unfolding loop
    three_turns =
        loop_again q deadline now small 2 0 (pos w.time) (pos once.time) none (w.replies w.served).1
          w once
          (turn_fails q deadline now small 0 (pause 0 w) 0 w first
            (Waits-whole q deadline now small 0 (delay 0) w.late _ (first_delays 0 (omega arith))
              (omega (arith, quick w.served)))
            (omega (arith, quick w.served)) (omega arith) budget (omega arith))
        ∙ loop_again q deadline now small 1 1 (pos once.time) (pos twice.time)
            (w.replies w.served).1 (once.replies once.served).1 once twice
            (turn_fails q deadline now small 1 (pause 1 once) 1 once second
              (Waits-whole q deadline now small 1 (delay 1) once.late _
                (first_delays 1 (omega arith)) (omega (arith, quick₁, once_time)))
              (omega (arith, quick₁)) (omega (arith, once_time)) f₁.budget (omega arith))
        ∙ loop_again q deadline now small 0 2 (pos twice.time) (pos thrice.time)
            (once.replies once.served).1 (twice.replies twice.served).1 twice thrice
            (turn_fails q deadline now small 2 (pause 2 twice) 2 twice third
              (Waits-whole q deadline now small 2 (delay 2) twice.late _
                (first_delays 2 (omega arith)) (omega (arith, quick₂, twice_time)))
              (omega (arith, quick₂)) (omega (arith, twice_time)) f₂.budget (omega arith))

    pub three_turns-Exhausts : Exhausts w (
        loop world_clock none
          (acts q deadline now small)
          (limited q deadline now small)
          3
          0
          (pos w.time)
          none
          w)
    three_turns-Exhausts = rw three_turns (record {
      reply =
          ap (λ (err : Option Err). (none, err))
            (reply_at twice 2 (f₂.replies ∙ f₁.replies) (omega (arith, f₂.served, f₁.served)));
      served = omega (arith, f₁.served, f₂.served, f₃.served);
      closed = f₃.closed;
      limiter = f₃.limiter ∙ f₂.limiter ∙ f₁.limiter;
      cb = f₃.cb ∙ f₂.cb ∙ f₁.cb;
      early = omega (arith, f₃.time, quick₂, twice_time, twice_late);
    })
