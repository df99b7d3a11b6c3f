-- ===== src/Ws/Timeout/Session.antt =====
-- rws/timeout.go: what a session promises.
use resili.Prelude.{false, ◌≡◌, ◌≢◌, ◌⊎◌, pos, none, some, arith, add64, ◌≤ℤ◌, ◌<ℤ◌}
use resili.Errors.{read_timeout, session_timeout}
use resili.Environment.{Clock}
use resili.Ws.{TimeoutConfig, Request, Handler, Sockets}
use resili.Ws.Timeout.{
  NetErrors, is_timeout_error, session_deadline, session_request, start_read,
  new_timeout_middleware,
}

-- With a session limit, a call whose error is neither ErrSessionTimeout nor ErrReadTimeout gives just
-- the reply of the next handler, which got the request under a deadline no later than the session's,
-- nor than one that the request had; and neither the call began, nor was the clock read after the
-- handler, past that deadline. The end of the session is a positive time.
pub session_strict :
    {D H W : Type 0} (clock : Clock W) (sockets : Sockets D W) (errors : NetErrors)
    (cfg : TimeoutConfig) (next : Handler D H W) (req : Request D H) (w : W)
    → pos 0 <ℤ cfg.session
    → pos 0 <ℤ add64 (clock.now w).0 cfg.session
    → (new_timeout_middleware clock sockets errors cfg next req w).0.1 ≢ some session_timeout
    → (new_timeout_middleware clock sockets errors cfg next req w).0.1 ≢ some read_timeout
    → let (now, w₁) = clock.now w in
      let req₁ = session_request cfg now req in
      let (reply, w₂) = next req₁ (start_read clock sockets errors cfg.read req.conn w₁) in
      ((new_timeout_middleware clock sockets errors cfg next req w).0 ≡ reply)
      × (now ≤ℤ req₁.request_deadline)
      × ((clock.now w₂).0 ≤ℤ req₁.request_deadline)
      × (req₁.request_deadline ≤ℤ add64 now cfg.session)
      × ((req.request_deadline ≤ℤ pos 0) ⊎ (req₁.request_deadline ≤ℤ req.request_deadline))
unfolding new_timeout_middleware session_deadline
session_strict clock sockets errors cfg next req w long ends no_session no_read = ground arith

-- A request without a connection of its own, whose handler is in time for no read timeout but past the
-- end of the session: the reply is ErrSessionTimeout without a response, and nothing is closed; after
-- the handler the middleware has only read the clock.
late_session_unclosed :
    {D H W : Type 0} (clock : Clock W) (sockets : Sockets D W) (errors : NetErrors)
    (cfg : TimeoutConfig) (next : Handler D H W) (req : Request D H) (w : W)
    → let (now, w₁) = clock.now w in
      let deadline = session_deadline cfg.session now req.request_deadline in
      let (reply, w₂) = next (session_request cfg now req) w₁ in
      req.conn ≡ none
      → now ≤ℤ deadline
      → pos 0 <ℤ deadline
      → deadline <ℤ (clock.now w₂).0
      → is_timeout_error errors reply.1 ≡ false
      → new_timeout_middleware clock sockets errors cfg next req w
        ≡ ((none, some session_timeout), (clock.now w₂).1)
unfolding new_timeout_middleware
late_session_unclosed clock sockets errors cfg next req w own early ends late other = ground arith
