-- ===== src/Limiter/Permits/Alone.antt =====
-- limiter/brr.go: the loops of Acquire and Done, access by access, against the functions that stand for
-- them where nobody interferes.
use resili.Prelude.{
  ℤ, pos, Bool, true, false, arith, inl, inr, Bool-cases, leb_ℤ, if◌then◌else◌, refl,
}
use resili.Limiter.State.{Limiter, acquire, done}
use resili.Limiter.Permits.{
  Pc, idle, holding, Permits, Move, ask, load_inflight, load_limit, reject, swap, finish, load_held,
  ignore, swap_held,
}

-- What one goroutine does while no other and not the control loop comes between.
pub data Alone : Permits → Pc → Permits → Pc → Type 0 where
  rest : {m : Permits} {p : Pc} → Alone m p m p
  move : {m n o : Permits} {p q r : Pc} → Move m p n q → Alone n q o r → Alone m p o r

abbrev pub permits_of : Limiter → Permits
permits_of l = record { limit = l.limit; inflight = l.inflight }

acquire-Alone :
    (now : ℤ) (l : Limiter)
    → let (l', start, ok) = acquire now l in
      Alone (permits_of l) idle (permits_of l') (if ok then holding else idle)
unfolding acquire
acquire-Alone now l = elim (Bool-cases (leb_ℤ l.limit l.inflight)) [
  | inl full ↦
      rw full (move ask (move load_inflight (move load_limit (move (reject (ground arith)) rest))))
  | inr free ↦
      rw free
        (move ask (move load_inflight (move load_limit (move (swap (ground arith) refl) rest))))
]

done-Alone :
    (start end : ℤ) (success : Bool) (l : Limiter)
    → Alone (permits_of l) holding (permits_of (done start end success l)) idle
unfolding done resili.Limiter.State.observe_rtt
done-Alone start end true l = elim (Bool-cases (leb_ℤ l.inflight (pos 0))) [
  | inl none_out ↦ rw none_out (move finish (move load_held (move (ignore (ground arith)) rest)))
  | inr out ↦ rw out (move finish (move load_held (move (swap_held (ground arith) refl) rest)))
]
done-Alone start end false l = elim (Bool-cases (leb_ℤ l.inflight (pos 0))) [
  | inl none_out ↦ rw none_out (move finish (move load_held (move (ignore (ground arith)) rest)))
  | inr out ↦ rw out (move finish (move load_held (move (swap_held (ground arith) refl) rest)))
]

-- A goroutine that nobody interrupts runs the loop of Acquire just as the function `acquire` says, to
-- a permit or to none, and the loop of Done as `done` says, to no permit: the interleaved and the
-- sequential account of the limiter agree.
pub permits-Alone :
    (now start end : ℤ) (success : Bool) (l : Limiter)
    → let (l', _, ok) = acquire now l in
      Alone (permits_of l) idle (permits_of l') (if ok then holding else idle)
      × Alone (permits_of l) holding (permits_of (done start end success l)) idle
permits-Alone now start end success l = (acquire-Alone now l, done-Alone start end success l)
