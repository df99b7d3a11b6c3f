-- ===== src/Limiter/Samples/Moves.antt =====
-- limiter/brr.go, observeRTT: what one access does to the measurements, beside a sequential limiter that
-- takes each sample in when the second loop stores it.
use resili.Prelude.{◌≡◌, ◌⊎◌, ℤ, arith, ◌≤ℤ◌, List, [], ◌∷◌}
use resili.Limiter.State.{Limiter, observe_rtt}
use resili.Limiter.Samples.{
  Pc, idle, min_read, averaging, ema_read, Rtts, Move, observe, load_min, keep_min, swap_min,
  lose_min, load_ema, swap_zero, lose_zero, swap_ema, lose_ema,
}

-- The samples measured one after the other, the last one first.
unfoldable pub measured : List ℤ → Limiter → Limiter
measured [] l = l
measured (ns ∷ samples) l = observe_rtt ns (measured samples l)

abbrev pub take_in : Pc → Pc → Limiter → Limiter
take_in (ema_read ns old) idle a = observe_rtt ns a
take_in _ _ a = a

-- A goroutine in the second loop has made sure that the minimum is not above its sample.
abbrev pub IsFresh : Rtts → Pc → Type 0
IsFresh m (min_read ns min) = m.rtt_min ≤ℤ min
IsFresh m (averaging ns) = m.rtt_min ≤ℤ ns
IsFresh m (ema_read ns old) = m.rtt_min ≤ℤ ns
IsFresh m _ = Unit

-- Whether a goroutine in the second loop works on the sample `v`.
abbrev pub IsSecond : ℤ → Pc → Type 0
IsSecond v (averaging ns) = ns ≡ v
IsSecond v (ema_read ns old) = ns ≡ v
IsSecond v _ = ⊥

pub record Moves (a : Limiter) (m : Rtts) (p : Pc) (m' : Rtts) (q : Pc) : Type 0 where
  pub below : m'.rtt_min ≤ℤ (take_in p q a).rtt_min
  pub average : m'.rtt_ema ≡ (take_in p q a).rtt_ema
  pub falls : m'.rtt_min ≤ℤ m.rtt_min
  pub lower : (take_in p q a).rtt_min ≤ℤ a.rtt_min
  pub opts : (take_in p q a).opts ≡ a.opts
  pub fresh : IsFresh m' q
  pub known : (m'.rtt_min ≡ m.rtt_min) ⊎ IsSecond m'.rtt_min q
  pub own : IsSecond m.rtt_min p → ((take_in p q a).rtt_min ≤ℤ m.rtt_min) ⊎ IsSecond m.rtt_min q

pub Move-Moves :
    (a : Limiter) {m m' : Rtts} {p q : Pc}
    → Move a.opts.smoothing m p m' q
    → IsFresh m p
    → m.rtt_min ≤ℤ a.rtt_min
    → m.rtt_ema ≡ a.rtt_ema
    → Moves a m p m' q
unfolding observe_rtt
Move-Moves a (observe ns) f b e = ground arith
Move-Moves a load_min f b e = ground arith
Move-Moves a (keep_min h) f b e = ground arith
Move-Moves a (swap_min h c) f b e = ground arith
Move-Moves a (lose_min h c) f b e = ground arith
Move-Moves a load_ema f b e = ground arith
Move-Moves a (swap_zero c) f b e = ground arith
Move-Moves a (lose_zero c) f b e = ground arith
Move-Moves a (swap_ema z c) f b e = ground arith
Move-Moves a (lose_ema z c) f b e = ground arith
