-- ===== src/Ws/Persistent.antt =====
-- rws/client.go, WsHandler and PersistentHandler: one roundtrip on a connection, and the connection
-- that is kept for the next.
pub mod Shared
use resili.Prelude.{
  ℕ, ◌⊎◌, inl, inr, Bool, ℤ, pos, Option, none, some, ltb_ℤ, ◌==◌, ◌+ℤ◌, if◌then◌else◌,
}
use resili.Errors.{Err, Outcome}
use resili.Environment.{Clock, Cell}
use resili.Ws.{Request, Response, Reply, Handler, Sockets, set_deadlines, clear_deadlines}

abbrev pub read_reply : {D : Type 0} → Response D ⊎ Err → Reply D
read_reply (inl resp) = (some resp, none)
read_reply (inr err) = (none, some err)

module _ {D H W : Type 0} (clock : Clock W) (sockets : Sockets D W) where
  -- The deferred calls, and what comes before the write.
  abbrev pub begin_roundtrip : Request D H → W → W
  begin_roundtrip r w = elim r.conn [
    | none ↦ w
    | some c ↦
        if ltb_ℤ (pos 0) r.timeout_config.read
        then (let (now, w₁) = clock.now w in
            set_deadlines sockets c (now +ℤ r.timeout_config.read) w₁)
        else w
  ]

  abbrev pub end_roundtrip : Request D H → W → W
  end_roundtrip r w = elim r.conn [
    | none ↦ w
    | some c ↦ if ltb_ℤ (pos 0) r.timeout_config.read then clear_deadlines sockets c w else w
  ]

  abbrev pub write : ℕ → Request D H → W → Option Err × W
  write c r w = elim r.payload [
    | none ↦ (none, w)
    | some bytes ↦ sockets.write_message c r.message_type bytes w
  ]

  unfoldable pub ws_handler : ℕ → Handler D H W
  ws_handler c r w =
      let (failed, w₁) = write c r (begin_roundtrip r w) in
      elim failed [
        | some err ↦ ((none, some err), end_roundtrip r w₁)
        | none ↦
            let (outcome, w₂) = sockets.read_message c w₁ in
            (read_reply outcome, end_roundtrip r w₂)
      ]

-- The connection that is kept, and the function that makes a new one or fails.
module _ {W : Type 0} (conn : Cell W (Option ℕ)) (connector : W → (ℕ ⊎ Err) × W) where
  abbrev pub connect : W → (ℕ ⊎ Err) × W
  connect w =
      let (made, w₁) = connector w in
      elim made [ inl c ↦ (inl c, conn.put (some c) w₁) | inr err ↦ (inr err, w₁) ]

  -- Under the lock: the connection to use, or the error of the connector.
  abbrev pub take_conn : Option ℕ → W → (ℕ ⊎ Err) × W
  take_conn own w = elim (conn.get w) [
    | some c ↦ (inl c, w)
    | none ↦ elim own [ some c ↦ (inl c, conn.put (some c) w) | none ↦ connect w ]
  ]

module _ {D W : Type 0} (sockets : Sockets D W) (conn : Cell W (Option ℕ)) where
  -- Under the lock again, after an error on the connection `active`.
  abbrev pub invalidate : ℕ → W → W
  invalidate active w = elim (conn.get w) [
    | none ↦ w
    | some c ↦ if c == active then conn.put none (sockets.close active w) else w
  ]

  abbrev pub keep_or_close : ℕ → Reply D → W → Reply D × W
  keep_or_close active (resp, none) w = ((resp, none), w)
  keep_or_close active (resp, some err) w = ((none, some err), invalidate active w)

module _ {D H W : Type 0} (clock : Clock W) (sockets : Sockets D W) (conn : Cell W (Option ℕ))
    (connector : W → (ℕ ⊎ Err) × W) where
  abbrev pub roundtrip : ℕ → Handler D H W
  roundtrip active r w =
      let (reply, w₁) = ws_handler clock sockets active (record r { conn = some active }) w in
      keep_or_close sockets conn active reply w₁

  unfoldable pub persistent_handler : Handler D H W
  unfolding ws_handler
  persistent_handler r w =
      let (taken, w₁) = take_conn conn connector r.conn w in
      elim taken [ inl active ↦ roundtrip active r w₁ | inr err ↦ ((none, some err), w₁) ]
