-- ===== src/Limiter/Execute.antt =====
-- limiter/limiter.go: the limiter around an action.
pub mod Permits
pub mod Keeps
use resili.Prelude.{Bool, true, false, ℤ, Option, none, some, not, if◌then◌else◌}
use resili.Errors.{Err, limited, Outcome}
use resili.Environment.{Clock, Cell, Action, modify}
use resili.Limiter.State.{Limiter, acquire, done}

-- err == nil
abbrev pub is_nil : Option Err → Bool
is_nil none = true
is_nil (some _) = false

module _ {W R : Type 0} (clock : Clock W) (zero : R) (cell : Cell W Limiter) where
  unfoldable pub execute_with_result : Action W R → W → Outcome R × W
  execute_with_result action w =
      let (l, start, ok) = acquire action.now (cell.get w) in
      let w₁ = cell.put l w in
      if not ok
      then ((zero, some limited), w₁)
      else (let ((resp, err), w₂) = action.execute w₁ in
          let (end, w₃) = clock.now w₂ in
          ((resp, err), modify cell (done start end (is_nil err)) w₃))

  unfoldable pub execute : Action W R → W → Option Err × W
  unfolding execute_with_result
  execute action w = let ((resp, err), w₁) = execute_with_result action w in (err, w₁)
