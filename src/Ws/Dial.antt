-- ===== src/Ws/Dial.antt =====
-- rws/hedge.go: the hedged dialing of a connection. The coordinator and its attempts are steps in any
-- order, as in Hedge.Race; a dialState has the two fields of a hedgeState, and the same operations.
pub mod Refines
pub mod Accounts
pub mod Lost
pub mod Timers
pub mod Ends
use resili.Prelude.{
  ℕ, zero, suc, ◌<◌, ◌≡◌, ◌≢◌, Bool, true, false, ◌||◌, ℤ, pos, leb_ℤ, Option, none, some, List, [],
  ◌∷◌, ◌++◌, update,
}
use resili.Errors.{Err, Outcome}
use resili.Hedge.{HedgeState, send, drain_pending, retain, release, begin}
use resili.Hedge.Race.{Attempt, unfired, running, reported, recycling_last, ended}
use resili.Ws.{Request, Reply, Handler}

-- What a dialer returns with its error: a connection, and the body of the handshake response.
pub record Dialed : Type 0 where
  pub conn : Option ℕ
  pub body : Option ℕ

abbrev pub push : Option ℕ → List ℕ → List ℕ
push none l = l
push (some c) l = c ∷ l

abbrev pub push_result : Option (Outcome Dialed) → List (Outcome Dialed) → List (Outcome Dialed)
push_result none l = l
push_result (some r) l = r ∷ l

-- What every part of a call sees, with its history: the results in the order in which the attempts
-- reported them, the connections and the bodies that were closed, and the results that were taken out
-- of the channel by nobody but recycleDialState. No code reads the history.
pub record Shared : Type 0 where
  pub state : HedgeState Dialed
  pub cancelled : Bool
  pub pool : List (HedgeState Dialed)
  pub finished : List (Outcome Dialed)
  pub closed : List ℕ
  pub released : List ℕ
  pub dropped : List (Outcome Dialed)

abbrev pub on_state : (HedgeState Dialed → HedgeState Dialed) → Shared → Shared
on_state f a = record a { state = f a.state }

-- The `select` of an attempt: a full channel makes it close what it has dialed.
abbrev pub report : Outcome Dialed → Shared → Shared
report r a = record a {
  state = send r a.state;
  finished = a.finished ++ (r ∷ []);
  closed = elim a.state.res_ch [ none ↦ a.closed | some _ ↦ push r.0.conn a.closed ];
  released = elim a.state.res_ch [ none ↦ a.released | some _ ↦ push r.0.body a.released ];
}

abbrev pub recycle_dial_state : Shared → Shared
recycle_dial_state a = record a {
  state = drain_pending a.state;
  pool = drain_pending a.state ∷ a.pool;
  dropped = push_result a.state.res_ch a.dropped;
}

abbrev pub close_handshake_body : Option ℕ → Shared → Shared
close_handshake_body body a = record a { released = push body a.released }

pub data Main : Type 0 where
  waiting : (fired : ℕ) → Main  -- in a `select`, with so many attempts fired
  finishing : Outcome Dialed → Main  -- it has the winner and holds its reference
  recycling : Outcome Dialed → Main  -- it was the last to let go
  settling : Outcome Dialed → Main  -- the body of the winner is still open
  settled : Outcome Dialed → Main

pub data MainMove (a : Shared) : Main → Shared → Main → Type 0 where
  receive :
      {k : ℕ} {r : Outcome Dialed}
      → a.state.res_ch ≡ some r
      → MainMove a
          (waiting k)
          (record (on_state drain_pending a) { cancelled = true })
          (finishing r)
  leave :
      {r : Outcome Dialed}
      → (release a.state).active ≢ 0
      → MainMove a (finishing r) (on_state release a) (settling r)
  leave_last :
      {r : Outcome Dialed}
      → (release a.state).active ≡ 0
      → MainMove a (finishing r) (on_state release a) (recycling r)
  recycle : {r : Outcome Dialed} → MainMove a (recycling r) (recycle_dial_state a) (settling r)
  settle :
      {r : Outcome Dialed} → MainMove a (settling r) (close_handshake_body r.0.body a) (settled r)

pub data AttemptMove (a : Shared) : Attempt → Shared → Attempt → Type 0 where
  answer : (r : Outcome Dialed) → AttemptMove a running (report r a) reported
  exit : (release a.state).active ≢ 0 → AttemptMove a reported (on_state release a) ended
  exit_last :
      (release a.state).active ≡ 0 → AttemptMove a reported (on_state release a) recycling_last
  put_back : AttemptMove a recycling_last (recycle_dial_state a) ended

pub record System : Type 0 where
  pub shared : Shared
  pub main : Main
  pub attempt : ℕ → Attempt

pub data Step (max_attempts : ℕ) (s : System) : System → Type 0 where
  main_moves :
      {a : Shared} {m : Main}
      → MainMove s.shared s.main a m
      → Step max_attempts s (record s { shared = a; main = m })
  -- The timer runs out, and the loop fires one more attempt.
  fire :
      (k : ℕ)
      → s.main ≡ waiting k
      → k < max_attempts
      → Step max_attempts s (record {
        shared = on_state retain s.shared;
        main = waiting (suc k);
        attempt = update s.attempt k running;
      })
  attempt_moves :
      (i : ℕ) {a : Shared} {p : Attempt}
      → AttemptMove s.shared (s.attempt i) a p
      → Step max_attempts s (record s { shared = a; attempt = update s.attempt i p })

abbrev pub initial : HedgeState Dialed → System
initial pooled = record {
  shared = record {
    state = begin pooled;
    cancelled = false;
    pool = [];
    finished = [];
    closed = [];
    released = [];
    dropped = [];
  };
  main = waiting 1;
  attempt = update (λ _. unfired) 0 running;
}

-- What `n` steps reach.
pub data Reach (max_attempts : ℕ) (pooled : HedgeState Dialed) : ℕ → System → Type 0 where
  start : Reach max_attempts pooled 0 (initial pooled)
  later :
      {n : ℕ} {s t : System}
      → Reach max_attempts pooled n s
      → Step max_attempts s t
      → Reach max_attempts pooled (suc n) t

abbrev pub is_some : Option ℕ → Bool
is_some none = false
is_some (some _) = true

abbrev pub is_none : Option ℕ → Bool
is_none none = true
is_none (some _) = false

-- Without hedging, or with a connection, the next handler gets the request as it is.
abbrev pub is_direct : {D H : Type 0} → ℤ → ℤ → Request D H → Bool
is_direct delay max_attempts req =
    leb_ℤ max_attempts (pos 1) || leb_ℤ delay (pos 0) || is_none req.url || is_some req.conn

module _ {D H W : Type 0} where
  -- What follows when the winner is known.
  abbrev pub proceed : Outcome Dialed → Handler D H W → Request D H → W → Reply D × W
  proceed (won, some err) next req w = ((none, some err), w)
  proceed (won, none) next req w = next (record req { conn = won.conn }) w

  -- The middleware, with its possible results. Dialing may change the world in any way.
  pub data Hedged (delay max_attempts : ℤ) (next : Handler D H W) (req : Request D H) (w : W)
      : Reply D × W → Type 0 where
    direct :
        is_direct delay max_attempts req ≡ true → Hedged delay max_attempts next req w (next req w)
    raced :
        is_direct delay max_attempts req ≡ false
        → (m : ℕ) → max_attempts ≡ pos m
        → (pooled : HedgeState Dialed) {n : ℕ} {s : System} (winner : Outcome Dialed)
        → Reach m pooled n s
        → s.main ≡ settled winner
        → (w₁ : W) → Hedged delay max_attempts next req w (proceed winner next req w₁)
