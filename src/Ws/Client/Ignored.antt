-- ===== src/Ws/Client/Ignored.antt =====
-- rws/client.go and hedge.go: a hedged dial in front of a handler that has a connection already.
use resili.Prelude.{ℕ, ◌⊎◌, ◌≡◌, Option, none, some, arith}
use resili.Errors.{Err}
use resili.Environment.{Clock, Cell}
use resili.Ws.{Request, Sockets}
use resili.Ws.Persistent.{persistent_handler, roundtrip}
use resili.Ws.Dial.{Dialed, proceed}

module _ {D H W : Type 0} (clock : Clock W) (sockets : Sockets D W) (kept : Cell W (Option ℕ))
    (connector : W → (ℕ ⊎ Err) × W) where
  -- While the handler of a client keeps a connection, it serves every request on that one: what the
  -- hedge middleware has dialed for the request is passed on, and used and closed by nobody.
  pub hedged_conn_ignored :
      (req : Request D H) (won : Dialed) (c : ℕ) (w : W)
      → kept.get w ≡ some c
      → proceed (won, none) (persistent_handler clock sockets kept connector) req w
        ≡ roundtrip clock sockets kept connector c req w
  unfolding persistent_handler
  hedged_conn_ignored req won c w e = ground arith
