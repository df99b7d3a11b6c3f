-- ===== src/Ws/Client.antt =====
-- rws/client.go and handler.go: the chain that NewClient builds, and Client.Send.
pub mod Ignored
pub mod Conns
mod Tests
use resili.Prelude.{ℕ, ◌⊎◌, inl, inr, ℤ, pos, Option, none, some, eq_ℤ, if◌then◌else◌}
use resili.Errors.{Err, ws_client_creation}
use resili.Environment.{Clock, Cell}
use resili.Ws.{Request, Reply, Handler, Middleware, Sockets}
use resili.Ws.Persistent.{persistent_handler}

-- A field that is nil is `none`.
pub record Pipeline (D H W : Type 0) : Type 0 where
  pub connector : Option (W → (ℕ ⊎ Err) × W)
  pub ws_handler : Option (Handler D H W)
  pub timeout : Option (Middleware D H W)
  pub retry : Option (Middleware D H W)
  pub hedge : Option (Middleware D H W)
  pub limiter : Option (Middleware D H W)
  pub circuit_breaker : Option (Middleware D H W)
  pub message_type : ℤ

pub record Client (D H W : Type 0) : Type 0 where
  pub chain : Handler D H W
  pub message_type : ℤ

-- websocket.TextMessage is 1.
abbrev pub type_or_text : ℤ → ℤ
type_or_text message_type = if eq_ℤ message_type (pos 0) then pos 1 else message_type

module _ {D H W : Type 0} where
  abbrev pub wrap : Option (Middleware D H W) → Handler D H W → Handler D H W
  wrap none h = h
  wrap (some mw) h = mw h

  abbrev pub chain_over : Pipeline D H W → Handler D H W → Handler D H W
  chain_over p h =
      wrap p.limiter (wrap p.circuit_breaker (wrap p.timeout (wrap p.retry (wrap p.hedge h))))

  abbrev pub client_over : Pipeline D H W → Handler D H W → Client D H W
  client_over p h = record { chain = chain_over p h; message_type = type_or_text p.message_type }

-- `conn` is the variable of the handler that a new client with a connector makes.
module _ {D H W : Type 0} (clock : Clock W) (sockets : Sockets D W) (conn : Cell W (Option ℕ)) where
  unfoldable pub new_client : Pipeline D H W → Client D H W ⊎ Err
  unfolding persistent_handler
  new_client p = elim p.ws_handler [
    | some h ↦ inl (client_over p h)
    | none ↦ elim p.connector [
      | some connector ↦ inl (client_over p (persistent_handler clock sockets conn connector))
      | none ↦ inr ws_client_creation
    ]
  ]

module _ {D H W : Type 0} (clock : Clock W) where
  -- The clock is read only if the request has no time.
  abbrev pub stamp : Request D H → W → Request D H × W
  stamp r w =
      if eq_ℤ r.now (pos 0)
      then (let (now, w₁) = clock.now w in (record r { now = now }, w₁))
      else (r, w)

  unfoldable pub send : Client D H W → Request D H → W → Reply D × W
  send client r w =
      let (r₁, w₁) = stamp r w in
      client.chain
        (record r₁ {
          message_type =
              if eq_ℤ r₁.message_type (pos 0) then client.message_type else r₁.message_type;
        })
        w₁
