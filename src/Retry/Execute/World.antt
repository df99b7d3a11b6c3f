-- ===== src/Retry/Execute/World.antt =====
-- The retry loop in a world that keeps accounts: what the clock showed, which attempts were started
-- when, which responses they opened and which were released, and how long was slept.
use resili.Prelude.{ℕ, suc, Bool, true, false, ℤ, List, [], ◌∷◌, ◌++◌, Option, none, some}
use resili.Errors.{Err, Outcome}
use resili.Environment.{Clock, Cell}
use resili.Retry.Budget.{Budget}
use resili.Retry.Execute.{RetryAction}

-- `clock k` is what the reading number `k` shows, and `outcomes k` how the attempt number `k` ends. A
-- response is a pointer to a body that is to be released, or nil.
pub record World (B : Type 0) : Type 0 where
  pub clock : ℕ → ℤ
  pub outcomes : ℕ → Outcome (Option B)
  pub reads : ℕ
  pub last : ℤ
  pub executed : ℕ
  pub starts : List ℤ  -- what the clock last showed when each attempt was started, newest first
  pub opened : List B
  pub released : List B
  pub slept : List ℤ
  pub budget : Budget

abbrev pub bodies : {B : Type 0} → Option B → List B
bodies none = []
bodies (some b) = b ∷ []

module _ {B : Type 0} where
  abbrev pub world_clock : Clock (World B)
  world_clock = record {
    now = λ w. (w.clock w.reads, record w { reads = suc w.reads; last = w.clock w.reads });
    sleep = λ d w. record w { slept = w.slept ++ d ∷ [] };
  }

  abbrev pub budget_cell : Cell (World B) Budget
  budget_cell = record { get = λ w. w.budget; put = λ b w. record w { budget = b } }

  -- The policy's budget is the world's, or there is none.
  abbrev pub budget_of : Bool → Option (Cell (World B) Budget)
  budget_of true = some budget_cell
  budget_of false = none

  abbrev pub attempt_of : World B → Outcome (Option B) × World B
  attempt_of w =
      let o = w.outcomes w.executed in
      (
        o,
        record w {
          executed = suc w.executed;
          starts = w.last ∷ w.starts;
          opened = w.opened ++ bodies o.0;
        },
      )

  abbrev pub release : Option B → World B → World B
  release none w = w
  release (some b) w = record w { released = w.released ++ b ∷ [] }

-- The request that the loop is called with, and the adapter's judgements.
pub record Caller (B : Type 0) : Type 0 where
  pub now : ℤ
  pub request_deadline : ℤ
  pub is_success : Option B → Option Err → Bool
  pub should_retry : Option B → Option Err → Bool
  pub final_err : Option Err → Option Err

module _ {B : Type 0} where
  abbrev pub retry_action : Caller B → RetryAction (World B) (Option B)
  retry_action c = record {
    action = record { execute = attempt_of; now = c.now; request_deadline = c.request_deadline };
    is_success = c.is_success;
    should_retry_default = c.should_retry;
    final_err = c.final_err;
    discard_attempt = release;
  }
