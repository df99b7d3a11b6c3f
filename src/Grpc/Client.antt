-- ===== src/Grpc/Client.antt =====
-- rgrpc/client.go: the chain that NewUnaryClientInterceptor builds.
pub mod Failing
use resili.Prelude.{ℤ, pos, Option, none, some}
use resili.Errors.{Err}
use resili.Environment.{Clock}
use resili.Grpc.{Invoker, Request, Handler, Middleware}

-- A middleware that is nil is `none`.
pub record Pipeline (X C W : Type 0) : Type 0 where
  pub timeout : Option (Middleware X C W)
  pub retry : Option (Middleware X C W)
  pub hedge : Option (Middleware X C W)
  pub limiter : Option (Middleware X C W)
  pub circuit_breaker : Option (Middleware X C W)

module _ {X C W : Type 0} (clock : Clock W) where
  abbrev pub base_handler : Handler X C W
  base_handler r = r.invoker r.ctx r.call

  abbrev pub wrap : Option (Middleware X C W) → Handler X C W → Handler X C W
  wrap none h = h
  wrap (some mw) h = mw h

  abbrev pub chain : Pipeline X C W → Handler X C W
  chain p =
      wrap p.limiter
        (wrap p.circuit_breaker (wrap p.timeout (wrap p.retry (wrap p.hedge base_handler))))

  -- One call of the interceptor: the time is read once, at its entry.
  unfoldable pub new_unary_client_interceptor :
      Pipeline X C W → X → C → Invoker X C W → W → Option Err × W
  new_unary_client_interceptor p ctx call invoker w =
      let (now, w₁) = clock.now w in
      chain p
        (record {
          ctx = ctx;
          call = call;
          invoker = invoker;
          request_deadline = pos 0;
          try_deadline = pos 0;
          now = now;
        })
        w₁
