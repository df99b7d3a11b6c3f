-- ===== src/Grpc/Status.antt =====
-- rgrpc/retry.go: which errors of a call are retried.
use resili.Prelude.{Bool, true, false, ◌||◌, ℤ, pos, Option, none, some, eq_ℤ}
use resili.Errors.{Err, retry, join}

-- action.IsSuccess
unfoldable pub is_success : Option Err → Bool
is_success none = true
is_success (some _) = false

-- action.Err
unfoldable pub final_err : Option Err → Option Err
final_err none = some retry
final_err (some err) = some (join retry err)

-- The codes DeadlineExceeded, Internal, Unavailable and ResourceExhausted.
abbrev pub is_transient : ℤ → Bool
is_transient code =
    eq_ℤ code (pos 4) || eq_ℤ code (pos 13) || eq_ℤ code (pos 14) || eq_ℤ code (pos 8)

abbrev pub retried_code : Option ℤ → Bool
retried_code none = true
retried_code (some code) = is_transient code

-- `status_code err` is the code of status.FromError(err), if that is a status.
unfoldable pub should_retry_default : (Err → Option ℤ) → Option Err → Bool
should_retry_default status_code none = false
should_retry_default status_code (some err) = retried_code (status_code err)
