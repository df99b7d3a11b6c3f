-- ===== src/Limiter/Permits.antt =====
-- limiter/brr.go with `n` goroutines: the loads and compare-and-swaps of the loops of `Acquire` and
-- `Done` on the number of permits, interleaved in any order with the stores of the control loop.
pub mod Alone
use mathlib.Core.Logic.{ite}
use native.Mathlib.Decide.{ℕ_discrete}
use resili.Prelude.{
  ap, sym, weight-le-weigh, ℕ, ◌+◌, ◌≤◌, ◌<◌, ◌≡◌, ◌≢◌, refl, ℤ, pos, arith, update, weigh,
  weigh-update, weigh-all, ◌≤ℤ◌, ◌<ℤ◌, add64, sub64, IsInt64,
}
use resili.Limiter.State.Bounds.{add64_one, sub64_one}

pub data Pc : Type 0 where
  idle : Pc
  acquiring : Pc  -- head of the loop of `Acquire`
  inflight_read : (old : ℤ) → Pc
  limit_read : (old lim : ℤ) → Pc
  holding : Pc  -- `Acquire` returned true, the action runs
  releasing : Pc  -- head of the loop of `Done`
  held_read : (old : ℤ) → Pc

pub record Permits : Type 0 where
  pub limit : ℤ
  pub inflight : ℤ

-- One atomic access of one goroutine.
pub data Move (m : Permits) : Pc → Permits → Pc → Type 0 where
  ask : Move m idle m acquiring
  load_inflight : Move m acquiring m (inflight_read m.inflight)
  load_limit : {old : ℤ} → Move m (inflight_read old) m (limit_read old m.limit)
  reject : {old lim : ℤ} → lim ≤ℤ old → Move m (limit_read old lim) m idle
  swap :
      {old lim : ℤ}
      → old <ℤ lim
      → m.inflight ≡ old
      → Move m (limit_read old lim) (record m { inflight = add64 old (pos 1) }) holding
  lose : {old lim : ℤ} → old <ℤ lim → m.inflight ≢ old → Move m (limit_read old lim) m acquiring
  finish : Move m holding m releasing
  load_held : Move m releasing m (held_read m.inflight)
  ignore : {old : ℤ} → old ≤ℤ pos 0 → Move m (held_read old) m idle
  swap_held :
      {old : ℤ}
      → pos 1 ≤ℤ old
      → m.inflight ≡ old
      → Move m (held_read old) (record m { inflight = sub64 old (pos 1) }) idle
  lose_held : {old : ℤ} → pos 1 ≤ℤ old → m.inflight ≢ old → Move m (held_read old) m releasing

pub record System : Type 0 where
  pub permits : Permits
  pub pc : ℕ → Pc

-- The control loop may store any limit that its clamp allows, `max` at most.
pub data Step (n : ℕ) (max : ℤ) (s : System) : System → Type 0 where
  pick :
      (i : ℕ) {m : Permits} {p : Pc}
      → i < n
      → Move s.permits (s.pc i) m p
      → Step n max s (record { permits = m; pc = update s.pc i p })
  store_limit :
      (limit : ℤ)
      → limit ≤ℤ max
      → Step n max s
          (record s { permits = record { limit = limit; inflight = s.permits.inflight } })

pub data Reach (n : ℕ) (max initial : ℤ) : System → Type 0 where
  start :
      Reach n max initial
        (record { permits = record { limit = initial; inflight = pos 0 }; pc = λ _. idle })
  later : {s t : System} → Reach n max initial s → Step n max s t → Reach n max initial t

-- A goroutine that holds a permit: from the swap of `Acquire` to that of `Done`.
abbrev pub holds : Pc → ℕ
holds holding = 1
holds releasing = 1
holds (held_read _) = 1
holds _ = 0

-- What a goroutine has loaded: a limit is at most `peak`, and a holder never reads 0 permits.
abbrev IsFresh : ℤ → Pc → Type 0
IsFresh peak (limit_read old lim) = lim ≤ℤ peak
IsFresh peak (held_read old) = pos 1 ≤ℤ old
IsFresh peak _ = Unit

record Inv (n : ℕ) (peak : ℤ) (s : System) : Type 0 where
  counted : s.permits.inflight ≡ pos (weigh holds n s.pc)
  capped : s.permits.inflight ≤ℤ peak
  limited : s.permits.limit ≤ℤ peak
  fresh : (i : ℕ) → IsFresh peak (s.pc i)

-- What a move makes of the permits: `before` and `after` are the holders, the mover included.
record Moves (peak : ℤ) (before after : ℕ) (m : Permits) (q : Pc) : Type 0 where
  counted : m.inflight ≡ pos after
  capped : m.inflight ≤ℤ peak
  limited : m.limit ≤ℤ peak
  fresh : IsFresh peak q

Move-Moves :
    (peak : ℤ) (before after : ℕ) {a m : Permits} {p q : Pc}
    → Move a p m q
    → IsInt64 peak
    → a.inflight ≡ pos before
    → a.inflight ≤ℤ peak
    → a.limit ≤ℤ peak
    → IsFresh peak p
    → holds p ≤ before
    → after + holds p ≡ before + holds q
    → Moves peak before after m q
Move-Moves peak before after {a} (swap {old} {lim} lt e) w c k l f b t =
    ground (arith, add64_one old peak)
Move-Moves peak before after {a} (swap_held {old} h e) w c k l f b t =
    ground (arith, sub64_one old h)
Move-Moves peak before after (ignore {old} h) w c k l f b t = absurd (omega arith)
Move-Moves peak before after mv w c k l f b t = ground arith

Step-Inv :
    (n : ℕ) (max peak : ℤ) {s t : System}
    → Step n max s t
    → IsInt64 peak
    → max ≤ℤ peak
    → Inv n peak s
    → Inv n peak t
Step-Inv n max peak {s} (pick i {m} {p} lt mv) w le inv = record {
  counted = d.counted;
  capped = d.capped;
  limited = d.limited;
  fresh = λ j. elim (ℕ_discrete i j) as (λ e. IsFresh peak (ite e p (s.pc j))) [
    | yes same ↦ d.fresh
    | no other ↦ inv.fresh j
  ];
}
  where
    d : Moves peak (weigh holds n s.pc) (weigh holds n (update s.pc i p)) m p
    d =
        Move-Moves peak (weigh holds n s.pc) (weigh holds n (update s.pc i p)) mv w inv.counted
          inv.capped inv.limited (inv.fresh i) (weight-le-weigh holds s.pc lt)
          (weigh-update holds s.pc p lt)
Step-Inv n max peak {s} (store_limit limit le) w le' inv = record {
  counted = inv.counted;
  capped = inv.capped;
  limited = omega arith;
  fresh = inv.fresh;
}

Reach-Inv :
    (n : ℕ) (max initial peak : ℤ) {s : System}
    → Reach n max initial s
    → IsInt64 peak
    → pos 0 ≤ℤ peak
    → max ≤ℤ peak
    → initial ≤ℤ peak
    → Inv n peak s
Reach-Inv n max initial peak start w h a b = record {
  counted = ap pos (sym (weigh-all holds n idle refl));
  capped = h;
  limited = b;
  fresh = λ _. tt;
}
Reach-Inv n max initial peak (later r st) w h a b =
    Step-Inv n max peak st w a (Reach-Inv n max initial peak r w h a b)

-- In every interleaving of `n` goroutines with the control loop, the counter is the number of
-- goroutines that hold a permit, and so many hold one at a time as `peak` at most: any int64 that is
-- not negative and that neither the initial limit nor any limit stored later exceeds.
pub permits_bounded :
    (n : ℕ) (max initial peak : ℤ) {s : System}
    → Reach n max initial s
    → IsInt64 peak
    → pos 0 ≤ℤ peak
    → max ≤ℤ peak
    → initial ≤ℤ peak
    → (s.permits.inflight ≡ pos (weigh holds n s.pc)) × (pos (weigh holds n s.pc) ≤ℤ peak)
permits_bounded n max initial peak r w h a b =
    ground (arith, Reach-Inv n max initial peak r w h a b)
