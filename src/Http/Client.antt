-- ===== src/Http/Client.antt =====
-- rhttp/client.go: the chain that NewClient builds.
pub mod Uncounted
pub mod Sheds
pub mod Accounts
mod Tests
use resili.Prelude.{ℤ, pos, Option, none, some, ltb_ℤ, ◌⊎◌, inl, inr, if◌then◌else◌}
use resili.Errors.{Err, client_creation}
use resili.Http.Middleware.{Handler, Middleware}

-- A middleware that is nil is `none`. `http_client` is HttpHandler of the client: what net/http does.
-- The field Retry429Policy is read by nothing.
pub record Pipeline (Q W : Type 0) : Type 0 where
  pub http_client : Option (Handler Q W)
  pub http_handler : Option (Handler Q W)
  pub timeout : Option (Middleware Q W)
  pub retry : Option (Middleware Q W)
  pub hedge : Option (Middleware Q W)
  pub limiter : Option (Middleware Q W)
  pub circuit_breaker : Option (Middleware Q W)
  pub classifier : Option (Middleware Q W)
  pub retry_hedge_fanout_limit : ℤ

module _ {Q W : Type 0} where
  abbrev pub wrap : Option (Middleware Q W) → Handler Q W → Handler Q W
  wrap none h = h
  wrap (some mw) h = mw h

  -- Called only with both middlewares.
  unfoldable pub wrap_hedge_with_retry_limit :
      Middleware Q W → Middleware Q W → Handler Q W → ℤ → Handler Q W
  wrap_hedge_with_retry_limit hedge_mw retry_mw next fanout_limit req =
      if ltb_ℤ (pos 0) fanout_limit then retry_mw (hedge_mw next) req else retry_mw next req

  abbrev pub wrap_attempts :
      Option (Middleware Q W) → Option (Middleware Q W) → ℤ → Handler Q W → Handler Q W
  wrap_attempts (some hedge) (some retry) limit h = wrap_hedge_with_retry_limit hedge retry h limit
  wrap_attempts hedge retry limit h = wrap retry (wrap hedge h)

  abbrev pub base_handler : Option (Handler Q W) → Option (Handler Q W) → Option (Handler Q W)
  base_handler (some handler) client = some handler
  base_handler none client = client

  abbrev pub chain_over : Pipeline Q W → Handler Q W → Handler Q W
  chain_over p h = wrap p.limiter (
      wrap p.classifier (
        wrap p.circuit_breaker
          (wrap p.timeout (wrap_attempts p.hedge p.retry p.retry_hedge_fanout_limit h))))

  -- The chain of the new client, or ErrClientCreation.
  unfoldable pub new_client : Pipeline Q W → Handler Q W ⊎ Err
  unfolding wrap_hedge_with_retry_limit
  new_client p = elim (base_handler p.http_handler p.http_client) [
    | none ↦ inr client_creation
    | some h ↦ inl (chain_over p h)
  ]
