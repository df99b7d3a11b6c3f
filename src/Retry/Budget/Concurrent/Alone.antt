-- ===== src/Retry/Budget/Concurrent/Alone.antt =====
-- retry/budget.go: the loops of AllowRetry and Decay, access by access, against the functions that
-- stand for them where nobody interferes.
use resili.Prelude.{true, arith, inl, inr, Bool-cases, leb, refl}
use resili.Retry.Budget.{Budget, allow_retry, decay, record_success, allowed_retries}
use resili.Retry.Budget.Concurrent.{
  Pc, idle, Move, succeed, ask, load_success, load_retries, refuse, swap, start_decay,
  load_old_success, swap_success, load_old_retries, swap_retries,
}

-- What one goroutine does while no other comes between.
pub data Alone : Budget → Pc → Budget → Pc → Type 0 where
  rest : {b : Budget} {p : Pc} → Alone b p b p
  move : {b c d : Budget} {p q r : Pc} → Move true b p c q → Alone c q d r → Alone b p d r

allow_retry-Alone : (b : Budget) → Alone b idle (allow_retry b).0 idle
unfolding allow_retry
allow_retry-Alone b = elim (Bool-cases (leb (allowed_retries b.ratio b.success) b.retries)) [
  | inl spent ↦
      rw spent
        (move ask (move load_success (move load_retries (move (refuse (ground arith)) rest))))
  | inr granted ↦
      rw granted
        (move ask (move load_success (move load_retries (move (swap (ground arith) refl) rest))))
]

-- A goroutine that nobody interrupts runs AllowRetry, RecordSuccess and Decay, load by load and swap
-- by swap, just as the functions of the sequential budget say.
pub budget-Alone :
    (b : Budget)
    → Alone b idle (allow_retry b).0 idle
      × Alone b idle (record_success b) idle
      × Alone b idle (decay b) idle
unfolding decay
budget-Alone b = (
  allow_retry-Alone b,
  move succeed rest,
  move (start_decay refl) (
      move load_old_success
        (move (swap_success refl) (move load_old_retries (move (swap_retries refl) rest)))),
)
