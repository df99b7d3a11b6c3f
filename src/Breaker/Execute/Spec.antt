-- ===== src/Breaker/Execute/Spec.antt =====
-- A circuit breaker as its documentation describes it: one tally while the circuit is closed, the time
-- of the opening while it is open, and integers that never wrap.
pub mod Calls
pub mod Refines
use resili.Prelude.{
  ℕ, suc, ◌+◌, ◌*◌, Bool, ℤ, pos, List, [], ◌∷◌, Option, some, ◌-ℤ◌, leb, leb_ℤ, ltb_ℤ, ◌&&◌,
  if◌then◌else◌,
}
use resili.Errors.{Err, circuit_open}
use resili.Breaker.State.{WindowStats, fresh_window}
use resili.Breaker.Execute.World.{Call}

pub data Circuit : Type 0 where
  counting : (tally : WindowStats) → Circuit
  refusing : (since : ℤ) → Circuit

-- The rate is scaled by 1024.
pub record Config : Type 0 where
  pub classify : Option Err → Bool
  pub cooldown : ℤ
  pub window : ℤ
  pub least : ℕ
  pub rate : ℕ

-- `reads` readings of the clock, and `executed` actions.
pub record Service : Type 0 where
  pub circuit : Circuit
  pub reads : ℕ
  pub executed : ℕ

module _ (cfg : Config) (clock : ℕ → ℤ) where
  abbrev pub renewed : ℤ → WindowStats → WindowStats
  renewed now tally = if ltb_ℤ (now -ℤ tally.start) cfg.window then tally else fresh_window now

  abbrev pub request : WindowStats → WindowStats
  request tally = record tally { requests = suc tally.requests }

  abbrev pub failure : Option Err → WindowStats → WindowStats
  failure err tally =
      if cfg.classify err then record tally { failures = suc tally.failures } else tally

  abbrev pub is_over : WindowStats → Bool
  is_over tally =
      leb cfg.least tally.requests && leb (cfg.rate * tally.requests) (tally.failures * 1024)

  -- The answer to the caller, and what the service is then.
  abbrev call_closed : Call → WindowStats → Service → Option Err × Service
  call_closed c tally s = (
    c.err,
    (if is_over tally
        then record {
          circuit = refusing (clock s.reads);
          reads = suc s.reads;
          executed = suc s.executed;
        }
        else record { circuit = counting tally; reads = s.reads; executed = suc s.executed }),
  )

  -- The cooldown is over: the call decides.
  abbrev call_probe : Call → Service → Option Err × Service
  call_probe c s = (
    c.err,
    (if cfg.classify c.err
        then record {
          circuit = refusing (clock (suc s.reads));
          reads = suc (suc s.reads);
          executed = suc s.executed;
        }
        else record {
          circuit = counting (fresh_window (clock (suc (suc s.reads))));
          reads = suc (suc (suc s.reads));
          executed = suc s.executed;
        }),
  )

  abbrev call_in : Circuit → Call → Service → Option Err × Service
  call_in (counting tally) c s = call_closed c (failure c.err (request (renewed c.now tally))) s
  call_in (refusing since) c s =
      if leb_ℤ cfg.cooldown (clock s.reads -ℤ since)
      then call_probe c s
      else (some circuit_open, record s { reads = suc s.reads })

  unfoldable pub call : Call → Service → Option Err × Service
  call c s = call_in s.circuit c s

  -- The answers to the calls, and what the service is after them.
  unfoldable pub calls : List Call → Service → List (Option Err) × Service
  calls [] s = ([], s)
  calls (c ∷ cs) s =
      let (answer, s') = call c s in let (answers, s'') = calls cs s' in (answer ∷ answers, s'')
