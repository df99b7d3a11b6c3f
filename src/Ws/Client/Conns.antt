-- ===== src/Ws/Client/Conns.antt =====
-- rws/client.go: what a client does with its connections, over any number of requests, through every
-- middleware but the hedge one.
pub mod Requests
pub mod Reconnects
use resili.Prelude.{
  ℕ, suc, ◌+◌, ◌<◌, ◌≡◌, ◌⊎◌, inl, inr, refl, Bool, true, false, ℤ, Option, none, some, List, [],
  ◌∷◌, arith, is_it, occurrences, ltb, if◌then◌else◌, ◌==◌,
}
use resili.Errors.{Err, Outcome}
use resili.Environment.{Clock, Cell}
use resili.Environment.Keeps.{ClockKeeps, CellKeeps, Keeps}
use resili.Limiter.State.{Limiter}
use resili.Limiter.Execute.Keeps as LimiterKeeps
use resili.Breaker.State.{CircuitBreaker}
use resili.Breaker.Execute.Keeps as BreakerKeeps
use resili.Retry.Budget.{Budget}
use resili.Retry.Policy.{RetryPolicy}
use resili.Retry.Execute.Keeps as RetryKeeps
use resili.Retry.Execute.Keeps.{BudgetKeeps, budget_in}
use resili.Ws.{
  Response, Request, Reply, Handler, Middleware, Sockets, TimeoutConfig, action_of, retry_action_of,
  new_limiter_middleware, new_breaker_middleware, new_retry_middleware,
}
use resili.Ws.Retryable.{CloseErrors}
use resili.Ws.Timeout.{NetErrors, new_timeout_middleware, session_request, is_past, session_reply}
use resili.Ws.Persistent.{
  ws_handler, persistent_handler, roundtrip, keep_or_close, take_conn, invalidate,
}
use resili.Ws.Client.{Client, Pipeline, new_client, client_over, send, stamp}

-- The handler's connection `kept`, and the connections `closed` so far; the connector names them 0, 1
-- and so on, and `made` is the next name. `wire k` is how the roundtrip number `k` ends, by the error of
-- the write and what is read, and `dials k` how the connector's call number `k` does.
pub record World (D : Type 0) : Type 0 where
  pub limiter : Limiter
  pub cb : CircuitBreaker
  pub budget : Budget
  pub clock : ℕ → ℤ
  pub reads : ℕ
  pub kept : Option ℕ
  pub made : ℕ
  pub closed : List ℕ
  pub wire : ℕ → Option Err × (Response D ⊎ Err)
  pub trips : ℕ
  pub dials : ℕ → Option Err
  pub dialed : ℕ

module _ {D : Type 0} where
  abbrev pub world_clock : Clock (World D)
  world_clock = record {
    now = λ w. (w.clock w.reads, record w { reads = suc w.reads });
    sleep = λ d w. w;
  }

  abbrev pub limiter_cell : Cell (World D) Limiter
  limiter_cell = record { get = λ w. w.limiter; put = λ l w. record w { limiter = l } }

  abbrev pub cb_cell : Cell (World D) CircuitBreaker
  cb_cell = record { get = λ w. w.cb; put = λ cb w. record w { cb = cb } }

  abbrev pub budget_cell : Cell (World D) Budget
  budget_cell = record { get = λ w. w.budget; put = λ b w. record w { budget = b } }

  abbrev pub kept_cell : Cell (World D) (Option ℕ)
  kept_cell = record { get = λ w. w.kept; put = λ c w. record w { kept = c } }

  abbrev pub sockets : Sockets D (World D)
  sockets = record {
    set_read_deadline = λ _ _ w. w;
    set_write_deadline = λ _ _ w. w;
    write_message = λ _ _ _ w. elim (w.wire w.trips).0 [
      | none ↦ (none, w)
      | some err ↦ (some err, record w { trips = suc w.trips })
    ];
    read_message = λ _ w. ((w.wire w.trips).1, record w { trips = suc w.trips });
    close = λ c w. record w { closed = c ∷ w.closed };
  }

  abbrev pub connector : World D → (ℕ ⊎ Err) × World D
  connector w = elim (w.dials w.dialed) [
    | none ↦ (inl w.made, record w { made = suc w.made; dialed = suc w.dialed })
    | some err ↦ (inr err, record w { dialed = suc w.dialed })
  ]

-- What the retry middleware is given: no policy, or one, with the budget of the world or without one.
pub data Retrying (D : Type 0) : Type 0 where
  nil_policy : Retrying D
  by_policy : (budgeted : Bool) (policy : RetryPolicy (World D) (Option (Response D))) → Retrying D

module _ {D : Type 0} where
  abbrev pub policy_of : Retrying D → Option (RetryPolicy (World D) (Option (Response D)))
  policy_of nil_policy = none
  policy_of (by_policy true policy) = some (record policy { budget = some budget_cell })
  policy_of (by_policy false policy) = some (record policy { budget = none })

  budget-keeps :
      (retrying : Retrying D) (P : World D → Type 0)
      → CellKeeps budget_cell P
      → BudgetKeeps (budget_in (policy_of retrying)) P
  budget-keeps nil_policy P h = tt
  budget-keeps (by_policy true policy) P h = h
  budget-keeps (by_policy false policy) P h = tt

-- The connection `c`, once it is made, is the kept one, or was closed once; before, neither.
abbrev pub IsKeptOrClosed : {D : Type 0} → ℕ → World D → Type 0
IsKeptOrClosed c w = occurrences c w.closed + is_it c w.kept ≡ (if ltb c w.made then 1 else 0)

module _ {D : Type 0} (c : ℕ) where
  take_conn-kept :
      (own : Option ℕ) (w : World D)
      → own ≡ none
      → IsKeptOrClosed c w
      → IsKeptOrClosed c (take_conn kept_cell connector own w).1
  take_conn-kept own w e h = ground arith

  invalidate-kept :
      (active : ℕ) (w : World D)
      → IsKeptOrClosed c w
      → IsKeptOrClosed c (invalidate sockets kept_cell active w)
  invalidate-kept active w h = ground arith

  keep_or_close-kept :
      (active : ℕ) (reply : Reply D) (w : World D)
      → IsKeptOrClosed c w
      → IsKeptOrClosed c (keep_or_close sockets kept_cell active reply w).1
  keep_or_close-kept active (resp, none) w h = h
  keep_or_close-kept active (resp, some err) w h = invalidate-kept active w h

  times : ClockKeeps {W = World D} world_clock (IsKeptOrClosed c)
  times = record { now = λ w h. h; sleep = λ d w h. h }

-- What a handler keeps, given requests without a connection.
abbrev pub HandlerKeeps : {D H : Type 0} → ℕ → Handler D H (World D) → Type 0
HandlerKeeps {D} {H} c next = (r : Request D H) → r.conn ≡ none → Keeps (next r) (IsKeptOrClosed c)

module _ {D H : Type 0} (c : ℕ) where
  ws_handler-kept :
      (active : ℕ) (r : Request D H)
      → Keeps (ws_handler world_clock sockets active r) (IsKeptOrClosed c)
  unfolding ws_handler
  ws_handler-kept active r w h = ground arith

  persistent_handler-kept :
      HandlerKeeps {D = D} {H = H} c (persistent_handler world_clock sockets kept_cell connector)
  unfolding persistent_handler
  persistent_handler-kept r e w h =
      go (take_conn kept_cell connector r.conn w).0 (take_conn kept_cell connector r.conn w).1
        (take_conn-kept c r.conn w e h)
    where
      go :
          (taken : ℕ ⊎ Err) (w₁ : World D)
          → IsKeptOrClosed c w₁
          → IsKeptOrClosed c
              (elim taken as (λ _. Reply D × World D) [
                | inl active ↦ roundtrip world_clock sockets kept_cell connector active r w₁
                | inr err ↦ ((none, some err), w₁)
              ]).1
      go (inl active) w₁ k =
          keep_or_close-kept c active _ _
            (ws_handler-kept active (record r { conn = some active }) w₁ k)
      go (inr err) w₁ k = k

  module _ (next : Handler D H (World D)) (keeps : HandlerKeeps c next) where
    limiter-kept : HandlerKeeps c (new_limiter_middleware world_clock limiter_cell next)
    unfolding new_limiter_middleware
    limiter-kept r e =
        LimiterKeeps.execute_with_result-Keeps world_clock none limiter_cell
          (action_of world_clock next r) (IsKeptOrClosed c) (times {D = D} c) (λ l w h. h)
          (keeps r e)

    breaker-kept : HandlerKeeps c (new_breaker_middleware world_clock cb_cell next)
    unfolding new_breaker_middleware
    breaker-kept r e =
        BreakerKeeps.execute_with_result-Keeps world_clock none cb_cell
          (action_of world_clock next r) (IsKeptOrClosed c) (times {D = D} c) (λ cb w h. h)
          (keeps r e)

    retry-kept :
        (errors : CloseErrors) (retrying : Retrying D)
        → HandlerKeeps c (new_retry_middleware world_clock errors (policy_of retrying) next)
    unfolding new_retry_middleware
    retry-kept errors retrying r e =
        RetryKeeps.execute_with_result-Answers world_clock none
          (retry_action_of world_clock errors next r) (λ _. IsKeptOrClosed c) (λ _. times {D = D} c)
          (keeps r e) (λ _ w h. h) (policy_of retrying)
          (λ _. budget-keeps retrying (IsKeptOrClosed c) (λ b w h. h))

    timeout-kept :
        (errors : NetErrors) (cfg : TimeoutConfig)
        → HandlerKeeps c (new_timeout_middleware world_clock sockets errors cfg next)
    unfolding new_timeout_middleware
    timeout-kept errors cfg r e w h = ground (
      arith,
      keeps (session_request cfg (w.clock w.reads) r) e (record w { reads = suc w.reads }) h,
    )
