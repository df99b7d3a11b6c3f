-- ===== src/Timeout.antt =====
-- timeout/timeout.go: the global deadline around an action.
pub mod Strict
pub mod Keeps
use resili.Prelude.{ℤ, pos, Option, none, some, ltb_ℤ, eq_ℤ, add64, if◌then◌else◌}
use resili.Errors.{Err, timeout, Outcome}
use resili.Environment.{Clock, Action}

-- The deadline that an outer layer has set, or else `d` from the time of the request.
abbrev pub deadline_from : ℤ → ℤ → ℤ → ℤ
deadline_from d now request_deadline =
    if eq_ℤ request_deadline (pos 0) then add64 now d else request_deadline

module _ {W R : Type 0} (clock : Clock W) (zero : R) where
  unfoldable pub execute_with_result : ℤ → Action W R → W → Outcome R × W
  execute_with_result d action w =
      let request_deadline = deadline_from d action.now action.request_deadline in
      if ltb_ℤ request_deadline action.now
      then ((zero, some timeout), w)
      else (let ((resp, err), w₁) = action.execute w in
          let (now, w₂) = clock.now w₁ in
          if ltb_ℤ request_deadline now then ((zero, some timeout), w₂) else ((resp, err), w₂))

  unfoldable pub execute : ℤ → Action W R → W → Option Err × W
  unfolding execute_with_result
  execute d action w = let ((resp, err), w₁) = execute_with_result d action w in (err, w₁)
