-- ===== src/Ws/Retryable.antt =====
-- rws/retry.go: which errors of a WebSocket operation are retried.
use resili.Prelude.{
  ℕ, ◌≡◌, Bool, true, false, not, ◌||◌, ◌==◌, List, [], ◌∷◌, Option, none, some, arith,
  if◌then◌else◌,
}
use resili.Errors.{Err, retry, join}

-- What the libraries tell about an error: gorilla/websocket's IsCloseError and IsUnexpectedCloseError
-- with the codes that they are given, errors.Is with one of the four errors below, and errors.As with
-- net.Error.
pub record CloseErrors : Type 0 where
  pub is_close_error : Err → List ℕ → Bool
  pub is_unexpected_close_error : Err → List ℕ → Bool
  pub is_eof : Err → Bool
  pub is_unexpected_eof : Err → Bool
  pub is_close_sent : Err → Bool
  pub is_bad_handshake : Err → Bool
  pub is_net_error : Err → Bool

-- action.IsSuccess
unfoldable pub is_success : Option Err → Bool
is_success none = true
is_success (some _) = false

-- action.Err
unfoldable pub final_err : Option Err → Option Err
final_err none = some retry
final_err (some err) = some (join retry err)

abbrev pub temporary : List ℕ
temporary = 1012 ∷ 1013 ∷ 1011 ∷ []

abbrev pub expected : List ℕ
expected = 1000 ∷ 1001 ∷ []

unfoldable pub should_retry_default : CloseErrors → Option Err → Bool
should_retry_default errors none = false
should_retry_default errors (some err) =
    if errors.is_close_error err temporary
    then true
    else if errors.is_unexpected_close_error err expected
    then true
    else if errors.is_eof err || errors.is_unexpected_eof err
    then true
    else if errors.is_net_error err
    then true
    else errors.is_close_sent err || errors.is_bad_handshake err

abbrev pub contains : ℕ → List ℕ → Bool
contains c [] = false
contains c (d ∷ ds) = (c == d) || contains c ds

abbrev pub matches : Option ℕ → List ℕ → Bool
matches none codes = false
matches (some c) codes = contains c codes

abbrev pub mismatches : Option ℕ → List ℕ → Bool
mismatches none codes = false
mismatches (some c) codes = not (contains c codes)

-- With the documented behaviour of the two functions of gorilla/websocket, where `close_code` is the
-- code of an error that is a *CloseError, the test for the temporary codes decides nothing: a close
-- error is retried exactly if its code is neither 1000 nor 1001, or the error is also one of the
-- others; an error that is no close error, exactly if it is one of those.
pub should_retry_default_lem :
    (errors : CloseErrors) (close_code : Err → Option ℕ) (err : Err)
    → ((e : Err) (codes : List ℕ) → errors.is_close_error e codes ≡ matches (close_code e) codes)
    → ((e : Err) (codes : List ℕ)
        → errors.is_unexpected_close_error e codes ≡ mismatches (close_code e) codes)
    → should_retry_default errors (some err) ≡ (
        mismatches (close_code err) expected
        || errors.is_eof err
        || errors.is_unexpected_eof err
        || errors.is_net_error err
        || errors.is_close_sent err
        || errors.is_bad_handshake err)
unfolding should_retry_default
should_retry_default_lem errors close_code err closes unexpected =
    ground (arith, closes err temporary, unexpected err expected)
