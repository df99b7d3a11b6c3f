-- ===== src/Examples/Http/Attempts.antt =====
-- examples/http/http.go: one attempt of the request, under the program's policy.
use resili.Prelude.{
  ◌*ℤ◌, ◌∙◌, ap, ℕ, zero, suc, ◌+◌, ◌^◌, ◌≤◌, ◌<◌, ◌≡◌, refl, true, false, ℤ, pos, List, [], ◌∷◌,
  Option, none, some, ◌<ℤ◌, arith, int64, ◌-ℤ◌, add64_pos, ltb_ℤ,
}
use resili.Errors.{Err}
use resili.Retry.Budget.{Budget, allowed_retries, allow_retry, record_success}
use resili.Retry.Policy.{exponential_backoff}
use resili.Retry.Execute.{
  RetryAction, Settings, settings, Turn, turn, after_attempt, wait, again, return, has_passed,
}
use resili.Http.Classifier.{Response, retried_status, should_retry_default, is_success}
use resili.Http.Middleware.{Request, retry_action_of}
use resili.Examples.Http.{World, world_clock, close_body, serve, opened, policy}

abbrev pub names : ℕ → List ℕ
names zero = []
names (suc n) = n ∷ names n

-- An attempt that fails in a way that is retried: no answer, or a status such as 503.
abbrev pub IsRetried : Option ℤ × Option Err → Type 0
IsRetried (none, some err) = Unit
IsRetried (some code, none) = retried_status code ≡ true
IsRetried _ = ⊥

-- The body of a failed attempt, if it has one, is closed.
abbrev pub released : Option ℤ × Option Err → World → World
released (none, err) w = w
released (some code, err) w = record w { made = suc w.made; closed = w.made ∷ w.closed }

abbrev pub success_budget : ℕ → Budget
success_budget retries = record { success = 50; retries = retries; ratio = pos 500 }

granted :
    (retries : ℕ)
    → retries ≤ 2
    → allow_retry (success_budget retries) ≡ (success_budget (suc retries), true)
unfolding allow_retry allowed_retries
granted retries few = ground arith

pub in_time : (start time : ℕ) → time ≤ start → has_passed (pos start) (pos time) ≡ false
in_time start time le = ground arith

retried-unsuccessful : (code : ℤ) → retried_status code ≡ true → ltb_ℤ code (pos 400) ≡ false
retried-unsuccessful code h = ground arith

-- The world after a failed attempt and the wait for `delay`.
abbrev pub failed : ℕ → ℕ → World → World
failed delay retries w = released (w.replies w.served) (record w {
  time = w.time + w.latency w.served + delay;
  served = suc w.served;
  budget = success_budget (suc retries);
})

-- What is left of it.
pub record Failed (w : World) (delay retries : ℕ) (w' : World) : Type 0 where
  pub time : w'.time ≡ w.time + w.latency w.served + delay
  pub served : w'.served ≡ suc w.served
  pub budget : w'.budget ≡ success_budget retries
  pub closed : w'.closed ≡ names w'.made
  pub latency : w'.latency ≡ w.latency
  pub late : w'.late ≡ w.late
  pub replies : w'.replies ≡ w.replies
  pub limiter : w'.limiter ≡ w.limiter
  pub cb : w'.cb ≡ w.cb

pub failed-Failed :
    (delay retries : ℕ) (w : World)
    → IsRetried (w.replies w.served)
    → w.closed ≡ names w.made
    → Failed w delay (suc retries) (failed delay retries w)
failed-Failed delay retries w h c = go (w.replies w.served) h
  where
    go :
        (reply : Option ℤ × Option Err)
        → IsRetried reply
        → Failed w delay (suc retries) (
            released reply (record w {
              time = w.time + w.latency w.served + delay;
              served = suc w.served;
              budget = success_budget (suc retries);
            }))
    go (none, some err) h = ground (arith, c)
    go (some code, none) h = ground (arith, c)
    go (none, none) h = elim h [ ]
    go (some code, some err) h = elim h [ ]

-- The world after a good answer.
abbrev pub answered : World → World
answered w = record w {
  time = w.time + w.latency w.served;
  served = suc w.served;
  made = suc w.made;
  budget = record_success w.budget;
}

-- The backoff of the three waits.
abbrev pub delay : ℕ → ℕ
delay zero = 1_000_000_000
delay (suc zero) = 2_000_000_000
delay (suc (suc n)) = 4_000_000_000

pub delay_le : (i : ℕ) → i < 2 → delay i ≤ 2_000_000_000
delay_le zero h = omega arith
delay_le (suc zero) h = omega arith
delay_le (suc (suc n)) h = absurd (omega arith)

-- The wait number `i` after the attempt that comes next, and how late it ends.
abbrev pub pause : ℕ → World → ℕ
pause i w = delay i + w.late (w.time + w.latency w.served)

pub first_delays : (i : ℕ) → i < 3 → exponential_backoff i ≡ pos (delay i)
unfolding exponential_backoff ◌*ℤ◌ int64
first_delays zero h = refl
first_delays (suc zero) h = refl
first_delays (suc (suc zero)) h = refl
first_delays (suc (suc (suc i))) h = absurd (omega arith)

module _ {Q : Type 0} (q : Option Q) (deadline : ℕ) (now : ℤ) (small : deadline < 2 ^ 62) where
  abbrev pub r : Request Q
  r = record { req = q; request_deadline = pos deadline; try_deadline = pos 0; now = now }

  abbrev pub action : RetryAction World (Option Response)
  action = retry_action_of world_clock close_body serve r

  abbrev pub limits : Settings World (Option Response)
  limits = settings world_clock none action (some policy)

  wait_lem :
      (i delay : ℕ) (err : Option Err) (w : World)
      → exponential_backoff i ≡ pos delay
      → w.time + delay < deadline
      → wait world_clock none action limits i (pos w.time) err w
        ≡ again
            (pos (w.time + delay + w.late w.time))
            err
            (record w { time = w.time + delay + w.late w.time })
  unfolding wait settings ◌-ℤ◌ int64
  wait_lem i delay err w e lt = rw e (ground arith)

  -- A wait at the time `time` lasts `delay` and leads to the next turn.
  abbrev pub Waits : ℕ → ℕ → (ℕ → ℕ) → ℕ → Type 0
  Waits i delay late time =
      (err : Option Err) (v : World)
      → v.time ≡ time
      → v.late ≡ late
      → wait world_clock none action limits i (pos v.time) err v
        ≡ again (pos (v.time + delay)) err (record v { time = v.time + delay })

  pub Waits-whole :
      (i d : ℕ) (late : ℕ → ℕ) (time : ℕ)
      → exponential_backoff i ≡ pos d
      → time + d < deadline
      → Waits i (d + late time) late time
  Waits-whole i d late time e lt err v same slow =
      wait_lem i d err v e (omega (arith, same)) ∙ ap awake (omega (arith, ends))
    where
      ends : v.late v.time ≡ late time
      ends = rw (slow, same) refl

      awake : ℕ → Turn World (Option Response)
      awake t = again (pos t) err (record v { time = t })

  after_fails :
      (reply : Option ℤ × Option Err) (i delay start retries : ℕ) (w : World)
      → IsRetried reply
      → Waits i delay w.late w.time
      → w.time ≤ start
      → w.budget ≡ success_budget retries
      → retries ≤ 2
      → let ((resp, err), w₁) = opened reply w in
        after_attempt world_clock none action limits i (pos start) (pos w₁.time) resp err w₁
        ≡ let w' =
            released reply
              (record w { time = w.time + delay; budget = success_budget (suc retries) }) in
          again (pos w'.time) reply.1 w'
  unfolding after_attempt should_retry_default is_success settings
  after_fails (none, some err) i delay start retries w h waits le b few =
      rw (in_time start w.time le, b, granted retries few)
        (waits (some err) (record w { budget = success_budget (suc retries) }) refl refl)
  after_fails (some code, none) i delay start retries w h waits le b few =
      rw (in_time start w.time le, retried-unsuccessful code h, h, b, granted retries few)
        (waits none
          (record w {
            budget = success_budget (suc retries);
            made = suc w.made;
            closed = w.made ∷ w.closed;
          })
          refl refl)
  after_fails (none, none) i delay start retries w h waits le b few = elim h [ ]
  after_fails (some code, some err) i delay start retries w h waits le b few = elim h [ ]

  pub turn_fails :
      (i delay retries : ℕ) (w : World)
      → IsRetried (w.replies w.served)
      → Waits i delay w.late (w.time + w.latency w.served)
      → w.latency w.served ≤ 2_000_000_000
      → w.time ≤ deadline
      → w.budget ≡ success_budget retries
      → retries ≤ 2
      → turn world_clock none action limits i (pos w.time) none w
        ≡ again (pos (failed delay retries w).time) (w.replies w.served).1 (failed delay retries w)
  unfolding turn serve settings
  turn_fails i delay retries w h waits quick lt b few =
      rw (in_time deadline w.time (omega arith), add64_pos w.time 2_000_000_000 (omega arith))
        (after_fails (w.replies w.served) i delay (w.time + 2_000_000_000) retries
          (record w { time = w.time + w.latency w.served; served = suc w.served }) h waits
          (omega arith) b few)

  pub turn_succeeds :
      (i : ℕ) (code : ℤ) (w : World)
      → w.replies w.served ≡ (some code, none)
      → code <ℤ pos 400
      → w.latency w.served ≤ 2_000_000_000
      → w.time + 2_000_000_000 ≤ deadline
      → turn world_clock none action limits i (pos w.time) none w
        ≡ return (some (record { status_code = code; body = some w.made }), none) (answered w)
  unfolding turn serve settings after_attempt is_success
  turn_succeeds i code w e good quick le =
      rw
        (
          in_time deadline w.time (omega arith),
          add64_pos w.time 2_000_000_000 (omega arith),
          e,
          in_time (w.time + 2_000_000_000) (w.time + w.latency w.served) (omega arith),
          below,
        )
        refl
    where
      below : ltb_ℤ code (pos 400) ≡ true
      below = ground arith
