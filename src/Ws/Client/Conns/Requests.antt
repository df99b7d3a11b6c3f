-- ===== src/Ws/Client/Conns/Requests.antt =====
-- rws/client.go: any number of requests through the chain that NewClient builds.
use resili.Prelude.{
  ℕ, ◌≡◌, ◌⊎◌, inl, inr, Bool, true, false, Option, none, some, List, [], ◌∷◌, arith, pos,
}
use resili.Errors.{Err}
use resili.Environment.Keeps.{Keeps}
use resili.Ws.{
  Request, Handler, Middleware, TimeoutConfig, new_limiter_middleware, new_breaker_middleware,
  new_retry_middleware,
}
use resili.Ws.Retryable.{CloseErrors}
use resili.Ws.Timeout.{NetErrors, new_timeout_middleware}
use resili.Ws.Client.{Client, Pipeline, wrap, new_client, send, stamp}
use resili.Ws.Client.Conns.{
  World, Retrying, policy_of, world_clock, limiter_cell, cb_cell, kept_cell, sockets, connector,
  IsKeptOrClosed, HandlerKeeps, persistent_handler-kept, limiter-kept, breaker-kept, retry-kept,
  timeout-kept,
}

-- What a user chooses: a limiter, a breaker, a timeout, retries.
pub record Choice (D : Type 0) : Type 0 where
  pub limited : Bool
  pub broken : Bool
  pub timeout : Option TimeoutConfig
  pub retry : Option (Retrying D)

module _ {D H : Type 0} (close_errors : CloseErrors) (net_errors : NetErrors) where
  abbrev pub timeout_of : Option TimeoutConfig → Option (Middleware D H (World D))
  timeout_of none = none
  timeout_of (some cfg) = some (new_timeout_middleware world_clock sockets net_errors cfg)

  abbrev pub retry_of : Option (Retrying D) → Option (Middleware D H (World D))
  retry_of none = none
  retry_of (some retrying) =
      some (new_retry_middleware world_clock close_errors (policy_of retrying))

  abbrev pub limiter_of : Bool → Option (Middleware D H (World D))
  limiter_of true = some (new_limiter_middleware world_clock limiter_cell)
  limiter_of false = none

  abbrev pub breaker_of : Bool → Option (Middleware D H (World D))
  breaker_of true = some (new_breaker_middleware world_clock cb_cell)
  breaker_of false = none

  abbrev pub pipeline : Choice D → Pipeline D H (World D)
  pipeline choice = record {
    connector = some connector;
    ws_handler = none;
    timeout = timeout_of choice.timeout;
    retry = retry_of choice.retry;
    hedge = none;
    limiter = limiter_of choice.limited;
    circuit_breaker = breaker_of choice.broken;
    message_type = pos 0;
  }

module _ {D H : Type 0} where
  -- The world after the requests, one after the other, if there is a client.
  abbrev pub after_requests : Client D H (World D) ⊎ Err → List (Request D H) → World D → World D
  after_requests (inl client) [] w = w
  after_requests (inl client) (r ∷ rs) w =
      after_requests (inl client) rs (send world_clock client r w).1
  after_requests (inr err) rs w = w

  -- No request comes with a connection of its own.
  pub data Unconnected : List (Request D H) → Type 0 where
    no_requests : Unconnected []
    one_more :
        {r : Request D H} {rs : List (Request D H)}
        → r.conn ≡ none
        → Unconnected rs
        → Unconnected (r ∷ rs)

  module _ (c : ℕ) where
    stamp-conn :
        (r : Request D H) (w : World D) → r.conn ≡ none → (stamp world_clock r w).0.conn ≡ none
    stamp-conn r w e = ground arith

    stamp-kept :
        (r : Request D H) (w : World D)
        → IsKeptOrClosed c w
        → IsKeptOrClosed c (stamp world_clock r w).1
    stamp-kept r w h = ground arith

    send-kept :
        (client : Client D H (World D))
        → HandlerKeeps c client.chain
        → (r : Request D H) → r.conn ≡ none
        → Keeps (send world_clock client r) (IsKeptOrClosed c)
    unfolding send
    send-kept client keeps r e w h =
        keeps _ (stamp-conn r w e) (stamp world_clock r w).1 (stamp-kept r w h)

    after_requests-kept :
        (client : Client D H (World D))
        → HandlerKeeps c client.chain
        → (rs : List (Request D H)) → Unconnected rs
        → (w : World D) → IsKeptOrClosed c w
        → IsKeptOrClosed c (after_requests (inl client) rs w)
    after_requests-kept client keeps [] no_requests w h = h
    after_requests-kept client keeps (r ∷ rs) (one_more e es) w h =
        after_requests-kept client keeps rs es (send world_clock client r w).1
          (send-kept client keeps r e w h)

    module _ (close_errors : CloseErrors) (net_errors : NetErrors) (next : Handler D H (World D))
        (keeps : HandlerKeeps c next) where
      timeout-wrapped :
          (cfg : Option TimeoutConfig)
          → HandlerKeeps c (wrap (timeout_of close_errors net_errors cfg) next)
      timeout-wrapped none = keeps
      timeout-wrapped (some cfg) = timeout-kept c next keeps net_errors cfg

      retry-wrapped :
          (retry : Option (Retrying D))
          → HandlerKeeps c (wrap (retry_of close_errors net_errors retry) next)
      retry-wrapped none = keeps
      retry-wrapped (some retrying) = retry-kept c next keeps close_errors retrying

      limiter-wrapped :
          (limited : Bool) → HandlerKeeps c (wrap (limiter_of close_errors net_errors limited) next)
      limiter-wrapped true = limiter-kept c next keeps
      limiter-wrapped false = keeps

      breaker-wrapped :
          (broken : Bool) → HandlerKeeps c (wrap (breaker_of close_errors net_errors broken) next)
      breaker-wrapped true = breaker-kept c next keeps
      breaker-wrapped false = keeps

    module _ (close_errors : CloseErrors) (net_errors : NetErrors) where
      -- A new client with a connector, any of the limiter, breaker, timeout and retry middlewares,
      -- the last with a policy or none, which has a budget or none, no hedge middleware, and any
      -- number of requests without a connection of their own, one after the other: whatever the
      -- dials and the wire do, each connection that the client made is the one it keeps, or was
      -- closed exactly once, and no other is closed or kept.
      pub client_conns :
          (choice : Choice D) (rs : List (Request D H)) (w : World D)
          → Unconnected rs
          → w.kept ≡ none
          → w.made ≡ 0
          → w.closed ≡ []
          → IsKeptOrClosed c (
              after_requests
                (new_client world_clock sockets kept_cell (pipeline close_errors net_errors choice))
                rs
                w)
      unfolding new_client
      client_conns choice rs w es k m d =
          after_requests-kept _
            (limiter-wrapped close_errors net_errors _
              (breaker-wrapped close_errors net_errors _
                (timeout-wrapped close_errors net_errors _
                  (retry-wrapped close_errors net_errors _ (persistent_handler-kept c) choice.retry)
                  choice.timeout)
                choice.broken)
              choice.limited)
            rs es w (ground arith)
