-- ===== src/Breaker/Execute/World.antt =====
-- A breaker used by one goroutine at a time, with a clock that may show anything.
use resili.Prelude.{ℕ, suc, ℤ, List, [], ◌∷◌, Option}
use resili.Errors.{Err}
use resili.Environment.{Clock, Cell, Action}
use resili.Breaker.State.{CircuitBreaker}
use resili.Breaker.Execute.{execute}

-- `clock k` is what the reading number `k` shows; `reads` have been made, and `executed` actions.
pub record World : Type 0 where
  pub cb : CircuitBreaker
  pub clock : ℕ → ℤ
  pub reads : ℕ
  pub executed : ℕ

abbrev pub world_clock : Clock World
world_clock = record {
  now = λ w. (w.clock w.reads, record w { reads = suc w.reads });
  sleep = λ d w. w;
}

abbrev pub breaker_cell : Cell World CircuitBreaker
breaker_cell = record { get = λ w. w.cb; put = λ cb w. record w { cb = cb } }

-- A request that came in at `now`, and whose action ends with `err`.
pub record Call : Type 0 where
  pub now : ℤ
  pub err : Option Err

abbrev pub call_action : Call → Action World (Unit {0})
call_action c = record {
  execute = λ w. ((tt, c.err), record w { executed = suc w.executed });
  now = c.now;
  request_deadline = ℤ.pos 0;
}

unfoldable pub call : Call → World → Option Err × World
call c w = execute world_clock tt breaker_cell (call_action c) w

unfoldable pub calls : List Call → World → World
calls [] w = w
calls (c ∷ cs) w = calls cs (call c w).1

-- The calls with what each of them returns.
unfoldable pub serve : List Call → World → List (Option Err) × World
serve [] w = ([], w)
serve (c ∷ cs) w = let (err, w₁) = call c w in let (errs, w₂) = serve cs w₁ in (err ∷ errs, w₂)
