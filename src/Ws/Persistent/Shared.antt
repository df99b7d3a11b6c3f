-- ===== src/Ws/Persistent/Shared.antt =====
-- rws/client.go, PersistentHandler called by any number of goroutines: a step is one section under the
-- lock, with the roundtrip between the two.
use resili.Prelude.{
  ℕ, ◌+◌, ◌≤◌, ◌≡◌, refl, Option, none, some, List, [], ◌∷◌, arith, update, is_it, occurrences,
  ◌==◌, if◌then◌else◌,
}

pub data Pc : Type 0 where
  idle : Pc
  running : (active : ℕ) → Pc  -- its roundtrip runs on this connection

-- The variable of the handler, with its history: the connections that it has taken, from the connector
-- or from a request, and those that it has closed.
pub record Kept : Type 0 where
  pub conn : Option ℕ
  pub taken : List ℕ
  pub closed : List ℕ

abbrev pub invalidate : ℕ → Kept → Kept
invalidate active k = elim k.conn [
  | none ↦ k
  | some c ↦ if c == active then record k { conn = none; closed = active ∷ k.closed } else k
]

-- A connection that the handler takes, from the connector or from the hedge middleware, was never
-- given to it before.
pub data Move (k : Kept) : Pc → Kept → Pc → Type 0 where
  reuse : {c : ℕ} → k.conn ≡ some c → Move k idle k (running c)
  take :
      (c : ℕ)
      → k.conn ≡ none
      → occurrences c k.taken ≡ 0
      → Move k idle (record k { conn = some c; taken = c ∷ k.taken }) (running c)
  cannot_connect : k.conn ≡ none → Move k idle k idle
  succeed : {c : ℕ} → Move k (running c) k idle
  fail : {c : ℕ} → Move k (running c) (invalidate c k) idle

pub record System : Type 0 where
  pub kept : Kept
  pub pc : ℕ → Pc

pub data Step (s : System) : System → Type 0 where
  pick :
      (i : ℕ) {k : Kept} {p : Pc}
      → Move s.kept (s.pc i) k p
      → Step s (record { kept = k; pc = update s.pc i p })

pub data Reach : System → Type 0 where
  start : Reach (record { kept = record { conn = none; taken = []; closed = [] }; pc = λ _. idle })
  later : {s t : System} → Reach s → Step s t → Reach t

record Inv (c : ℕ) (k : Kept) : Type 0 where
  balance : occurrences c k.taken ≡ occurrences c k.closed + is_it c k.conn
  once : occurrences c k.taken ≤ 1

Move-Inv : (c : ℕ) {k l : Kept} {p q : Pc} → Move k p l q → Inv c k → Inv c l
Move-Inv c (reuse e) v = v
Move-Inv c (take d e fresh) v = record {
  balance = ground (arith, v.balance);
  once = ground (arith, v.once);
}
Move-Inv c (cannot_connect e) v = v
Move-Inv c succeed v = v
Move-Inv c fail v = record { balance = ground (arith, v.balance); once = ground (arith, v.once) }

Reach-Inv : (c : ℕ) {s : System} → Reach s → Inv c s.kept
Reach-Inv c start = record { balance = refl; once = omega arith }
Reach-Inv c (later r (pick i mv)) = Move-Inv c mv (Reach-Inv c r)

-- In every interleaving: each connection that the handler has taken is either the current one, and
-- not closed, or was closed exactly once; a connection that it has not taken is neither. No two
-- connections that it takes are the same.
pub kept_or_closed :
    (c : ℕ) {s : System}
    → Reach s
    → (occurrences c s.kept.taken ≡ occurrences c s.kept.closed + is_it c s.kept.conn)
      × (occurrences c s.kept.closed + is_it c s.kept.conn ≤ 1)
kept_or_closed c r = let v = Reach-Inv c r in (v.balance, omega (arith, v.balance, v.once))
