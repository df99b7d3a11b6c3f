-- ===== src/Http/Client/Sheds.antt =====
-- rhttp/client.go: a client with a limiter, the classifier and a circuit breaker around whatever other
-- middlewares and handler, while the circuit is open.
use resili.Prelude.{
  ℕ, suc, ◌≡◌, refl, ℤ, pos, Option, none, some, arith, inl, ◌≤ℤ◌, ◌<ℤ◌, IsInt64, sub64, leb_ℤ,
  if◌then◌else◌,
}
use resili.Errors.{limited, circuit_open}
use resili.Environment.{Clock, Cell}
use resili.Limiter.State.{Limiter, acquire, done}
use resili.Limiter.Execute.Permits.{there_and_back}
use resili.Breaker.State.{CircuitBreaker, state_open, admit}
use resili.Http.Classifier.{classify_error}
use resili.Http.Middleware.{
  Handler, Reply, do_request, new_limiter_middleware, new_breaker_middleware,
  new_classifier_middleware,
}
use resili.Http.Client.{Pipeline, new_client, chain_over}

-- `rest` is what the other middlewares and the handler have.
pub record World (S : Type 0) : Type 0 where
  pub limiter : Limiter
  pub cb : CircuitBreaker
  pub clock : ℕ → ℤ
  pub reads : ℕ
  pub rest : S

module _ {S : Type 0} where
  abbrev pub world_clock : Clock (World S)
  world_clock = record {
    now = λ w. (w.clock w.reads, record w { reads = suc w.reads });
    sleep = λ d w. w;
  }

  abbrev pub limiter_cell : Cell (World S) Limiter
  limiter_cell = record { get = λ w. w.limiter; put = λ l w. record w { limiter = l } }

  abbrev pub cb_cell : Cell (World S) CircuitBreaker
  cb_cell = record { get = λ w. w.cb; put = λ cb w. record w { cb = cb } }

module _ {Q S : Type 0} where
  -- Any pipeline with a handler, with these three in the place of its own.
  abbrev pub guarded :
      (ℕ → World S → World S) → Pipeline Q (World S) → Handler Q (World S) → Pipeline Q (World S)
  guarded close_body p handler = record p {
    http_handler = some handler;
    limiter = some (new_limiter_middleware world_clock close_body limiter_cell);
    circuit_breaker = some (new_breaker_middleware world_clock close_body cb_cell);
    classifier = some (new_classifier_middleware world_clock close_body);
  }

  abbrev pub send :
      (ℕ → World S → World S)
      → Pipeline Q (World S)
      → Handler Q (World S)
      → Option Q
      → World S
      → Reply × World S
  send close_body p handler =
      do_request world_clock close_body (chain_over (guarded close_body p handler) handler)

  -- What NewClient builds of them, with whatever timeout, retry and hedge middlewares. While the
  -- circuit is open and its timeout not over, a request is refused before any of those, or the handler,
  -- runs: with ErrLimited if all permits are out, and else with ErrCircuitOpen and its permit given
  -- back. Nothing but the clock has moved.
  pub open_client_sheds :
      (close_body : ℕ → World S → World S) (p : Pipeline Q (World S))
      (handler : Handler Q (World S)) (q : Option Q) (w : World S)
      → pos 0 ≤ℤ w.limiter.inflight
      → IsInt64 w.limiter.limit
      → w.cb.state ≡ state_open
      → sub64 (w.clock (suc w.reads)) w.cb.last_fail_time <ℤ w.cb.open_timeout
      → (new_client (guarded close_body p handler)
          ≡ inl (chain_over (guarded close_body p handler) handler))
        × (send close_body p handler q w ≡ (
            if leb_ℤ w.limiter.limit w.limiter.inflight
            then ((none, some limited), record w { reads = suc w.reads })
            else ((none, some circuit_open), record w { reads = suc (suc (suc w.reads)) })))
  unfolding new_client do_request new_limiter_middleware new_breaker_middleware
      new_classifier_middleware resili.Limiter.Execute.execute_with_result
      resili.Breaker.Execute.execute_with_result acquire done admit classify_error
  open_client_sheds close_body p handler q w h word shut early =
      (refl, ground (arith, there_and_back w.limiter.inflight w.limiter.limit h))
