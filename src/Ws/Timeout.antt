-- ===== src/Ws/Timeout.antt =====
-- rws/timeout.go: the deadlines of a session and of a read.
pub mod Session
use resili.Prelude.{
  ℕ, Bool, true, false, ◌&&◌, ◌||◌, ℤ, pos, Option, none, some, ltb_ℤ, add64, ◌+ℤ◌, if◌then◌else◌,
}
use resili.Errors.{Err, read_timeout, session_timeout}
use resili.Environment.{Clock}
use resili.Ws.{
  TimeoutConfig, Request, Response, Reply, Handler, Middleware, Sockets, set_deadlines,
  clear_deadlines,
}

-- What the libraries tell about an error: whether it is websocket.ErrCloseSent, whether errors.As
-- finds a net.Error that is a timeout, and whether its message contains one of the texts.
pub data Text : Type 0 where
  io_timeout read_tcp timeout read_limit_exceeded : Text

pub record NetErrors : Type 0 where
  pub is_close_sent : Err → Bool
  pub is_net_timeout : Err → Bool
  pub message_contains : Err → Text → Bool

unfoldable pub is_timeout_error : NetErrors → Option Err → Bool
is_timeout_error errors none = false
is_timeout_error errors (some err) =
    errors.is_close_sent err
    || errors.is_net_timeout err
    || errors.message_contains err io_timeout
    || (errors.message_contains err read_tcp && errors.message_contains err timeout)
    || errors.message_contains err read_limit_exceeded

-- The deadline of the session: a tighter one of an outer layer is kept.
unfoldable pub session_deadline : ℤ → ℤ → ℤ → ℤ
session_deadline session now request_deadline =
    if ltb_ℤ (pos 0) session
    then (if ltb_ℤ (pos 0) request_deadline && ltb_ℤ request_deadline (add64 now session)
        then request_deadline
        else add64 now session)
    else request_deadline

abbrev pub is_past : ℤ → ℤ → Bool
is_past deadline now = ltb_ℤ (pos 0) deadline && ltb_ℤ deadline now

-- The request that the next handler gets.
abbrev pub session_request : {D H : Type 0} → TimeoutConfig → ℤ → Request D H → Request D H
session_request cfg now req = record req {
  request_deadline = session_deadline cfg.session now req.request_deadline;
  timeout_config = cfg;
}

module _ {D W : Type 0} (clock : Clock W) (sockets : Sockets D W) (errors : NetErrors) where
  abbrev pub start_read : ℤ → Option ℕ → W → W
  start_read read none w = w
  start_read read (some c) w =
      if ltb_ℤ (pos 0) read
      then (let (now, w₁) = clock.now w in set_deadlines sockets c (now +ℤ read) w₁)
      else w

  -- The deferred calls.
  abbrev pub end_read : ℤ → Option ℕ → W → W
  end_read read none w = w
  end_read read (some c) w = if ltb_ℤ (pos 0) read then clear_deadlines sockets c w else w

  abbrev pub close_conn : Option ℕ → W → W
  close_conn none w = w
  close_conn (some c) w = sockets.close c w

  -- What the middleware makes of the reply of the next handler.
  abbrev pub session_reply : ℤ → Option ℕ → Option (Response D) → Option Err → W → Reply D × W
  session_reply deadline conn resp err w =
      if is_timeout_error errors err
      then ((none, some read_timeout), w)
      else if ltb_ℤ (pos 0) deadline
      then (let (now, w₁) = clock.now w in
          if ltb_ℤ deadline now
          then ((none, some session_timeout), close_conn conn w₁)
          else ((resp, err), w₁))
      else ((resp, err), w)

module _ {D H W : Type 0} (clock : Clock W) (sockets : Sockets D W) (errors : NetErrors) where
  abbrev pub in_session : TimeoutConfig → Handler D H W → Request D H → W → Reply D × W
  in_session cfg next req₁ w =
      let ((resp, err), w₁) = next req₁ (start_read clock sockets errors cfg.read req₁.conn w) in
      let (reply, w₂) =
        session_reply clock sockets errors req₁.request_deadline req₁.conn resp err w₁ in
      (reply, end_read clock sockets errors cfg.read req₁.conn w₂)

  unfoldable pub new_timeout_middleware : TimeoutConfig → Middleware D H W
  unfolding session_deadline is_timeout_error
  new_timeout_middleware cfg next req w =
      let (now, w₁) = clock.now w in
      let req₁ = session_request cfg now req in
      if is_past req₁.request_deadline now
      then ((none, some session_timeout), w₁)
      else in_session cfg next req₁ w₁
