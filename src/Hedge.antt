-- ===== src/Hedge.antt =====
-- hedge/hedge.go: the state that one hedged call shares with its attempts, and the operations on it.
pub mod Race
pub mod Execute
pub mod Replies
pub mod Variants
pub mod Timers
mod Tests
use resili.Prelude.{
  ℕ, suc, ◌+◌, ◌%◌, ◌^◌, ◌≡◌, Bool, true, false, ◌||◌, ℤ, pos, leb_ℤ, Option, none, some, List, [],
  ◌∷◌, ◌++◌,
}
use resili.Errors.{Err, Outcome}

-- The result of an attempt goes through a channel of capacity 1. The counter is an atomic int32, here
-- modulo 2 ^ 32.
pub record HedgeState (R : Type 0) : Type 0 where
  pub res_ch : Option (Outcome R)
  pub active : ℕ

-- A `select` with the send and a `default`: a full channel drops the result.
abbrev pub send : {R : Type 0} → Outcome R → HedgeState R → HedgeState R
send r s = record {
  res_ch = elim s.res_ch [ none ↦ some r | some first ↦ some first ];
  active = s.active;
}

abbrev pub drain_pending : {R : Type 0} → HedgeState R → HedgeState R
drain_pending s = record s { res_ch = none }

abbrev pub retain : {R : Type 0} → HedgeState R → HedgeState R
retain s = record s { active = (s.active + 1) % 2 ^ 32 }

-- `Add(-1)`.
abbrev pub release : {R : Type 0} → HedgeState R → HedgeState R
release s = record s { active = (s.active + 4_294_967_295) % 2 ^ 32 }

-- What a call starts with: a state of the pool, held by the coordinator and the first attempt.
abbrev pub begin : {R : Type 0} → HedgeState R → HedgeState R
begin s = retain (record { res_ch = s.res_ch; active = 1 })

-- The state that the pool makes when it is empty.
abbrev pub new_state : {R : Type 0} → HedgeState R
new_state = record { res_ch = none; active = 0 }

-- What every part of a call sees. `finished` is the history of the results in the order in which the
-- attempts reported them, which no code reads; `pool` is what the call has put back.
pub record Shared (R : Type 0) : Type 0 where
  pub state : HedgeState R
  pub ctx_done : Bool  -- the context of the caller
  pub cancelled : Bool  -- the context of the attempts
  pub pool : List (HedgeState R)
  pub finished : List (Outcome R)

abbrev pub on_state : {R : Type 0} → (HedgeState R → HedgeState R) → Shared R → Shared R
on_state f a = record a { state = f a.state }

abbrev pub report : {R : Type 0} → Outcome R → Shared R → Shared R
report r a = record a { state = send r a.state; finished = a.finished ++ (r ∷ []) }

abbrev pub cancel : {R : Type 0} → Shared R → Shared R
cancel a = record a { cancelled = true }

abbrev pub recycle_state : {R : Type 0} → Shared R → Shared R
recycle_state a = record a { state = drain_pending a.state; pool = drain_pending a.state ∷ a.pool }

-- Without hedging the function is called once, directly.
abbrev pub is_fast : ℤ → ℤ → Bool
is_fast delay max_attempts = leb_ℤ max_attempts (pos 1) || leb_ℤ delay (pos 0)
