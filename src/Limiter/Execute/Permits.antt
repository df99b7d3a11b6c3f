-- ===== src/Limiter/Execute/Permits.antt =====
-- limiter/limiter.go: the permits that a call takes and gives back.
use resili.Prelude.{
  ℕ, suc, ◌<◌, ◌^◌, ◌+◌, ◌≡◌, ap, ◌∙◌, ℤ, pos, negsuc, some, arith, ◌≤ℤ◌, ◌<ℤ◌, IsInt64, add64,
  sub64, leb_ℤ, if◌then◌else◌,
}
use resili.Errors.{limited, Outcome}
use resili.Environment.{Clock, Cell, Action}
use resili.Limiter.State.{Limiter, acquire, done}
use resili.Limiter.State.Bounds.{add64_one, sub64_one}
use resili.Limiter.Execute.{execute_with_result}

-- A limiter and a clock that may show anything; the action ends with `outcome`.
pub record World : Type 0 where
  pub limiter : Limiter
  pub clock : ℕ → ℤ
  pub reads : ℕ
  pub executed : ℕ

abbrev pub world_clock : Clock World
world_clock = record {
  now = λ w. (w.clock w.reads, record w { reads = suc w.reads });
  sleep = λ d w. w;
}

abbrev pub limiter_cell : Cell World Limiter
limiter_cell = record { get = λ w. w.limiter; put = λ l w. record w { limiter = l } }

abbrev pub action_of : {R : Type 0} → ℤ → Outcome R → Action World R
action_of now outcome = record {
  execute = λ w. (outcome, record w { executed = suc w.executed });
  now = now;
  request_deadline = pos 0;
}

pub there_and_back :
    (i lim : ℤ)
    → pos 0 ≤ℤ i
    → i <ℤ lim
    → IsInt64 lim
    → (sub64 (add64 i (pos 1)) (pos 1) ≡ i) × (pos 1 ≤ℤ add64 i (pos 1))
there_and_back (pos i) lim h lt word =
    rw (add64_one (pos i) lim h lt word)
      (sub64_one (pos (i + 1)) (omega arith) (fits lim lt word) ∙ ap pos (omega arith), omega arith)
  where
    fits : (lim : ℤ) → pos i <ℤ lim → IsInt64 lim → i + 1 < 2 ^ 63
    fits (pos n) lt word = omega arith
    fits (negsuc n) lt word = absurd (omega arith)
there_and_back (negsuc i) lim h lt word = absurd (omega arith)

-- A call gives back the permit that it took, whatever its action returned, and it executes the action
-- exactly if fewer permits were out than the limit; otherwise it returns ErrLimited.
pub execute_balanced :
    {R : Type 0} (zero : R) (now : ℤ) (outcome : Outcome R) (w : World)
    → pos 0 ≤ℤ w.limiter.inflight
    → IsInt64 w.limiter.limit
    → let (o, w') = execute_with_result world_clock zero limiter_cell (action_of now outcome) w in
      let full = leb_ℤ w.limiter.limit w.limiter.inflight in
      (w'.limiter.inflight ≡ w.limiter.inflight)
      × (w'.executed ≡ (if full then w.executed else suc w.executed))
      × (o ≡ (if full then (zero, some limited) else outcome))
unfolding execute_with_result acquire done
execute_balanced zero now outcome w h word =
    ground (arith, there_and_back w.limiter.inflight w.limiter.limit h)
