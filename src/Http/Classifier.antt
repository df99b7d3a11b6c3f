-- ===== src/Http/Classifier.antt =====
-- rhttp/classifier.go and the predicates of rhttp/retry.go: what a status code means.
pub mod Agreement
use resili.Prelude.{
  ℕ, Bool, true, false, not, ◌&&◌, ◌||◌, ℤ, pos, Option, none, some, eq_ℤ, ltb_ℤ, if◌then◌else◌,
}
use resili.Errors.{Err, rate_limited, client_error, server_error, unknown, retry, join}

-- A *http.Response, by its status code and by the name of its body, which may be nil.
pub record Response : Type 0 where
  pub status_code : ℤ
  pub body : Option ℕ

abbrev pub is_status : ℤ → ℕ → Bool
is_status code n = eq_ℤ code (pos n)

-- The `switch` of ClassifyError.
unfoldable pub classify_status : ℤ → Option Err
classify_status code =
    if is_status code 408 || is_status code 425
    then some client_error
    else if is_status code 429
    then some rate_limited
    else if is_status code 500 || is_status code 502 || is_status code 503 || is_status code 504
    then some server_error
    else none

unfoldable pub classify_error : Option Response → Option Err → Option Err
unfolding classify_status
classify_error response (some err) = some err
classify_error none none = some unknown
classify_error (some response) none = classify_status response.status_code

-- The `switch` of ShouldRetryDefault.
abbrev pub retried_status : ℤ → Bool
retried_status code =
    is_status code 408
    || is_status code 425
    || is_status code 500
    || is_status code 502
    || is_status code 503
    || is_status code 504

unfoldable pub should_retry_default : Option Response → Option Err → Bool
should_retry_default response (some err) = true
should_retry_default none none = true
should_retry_default (some response) none = retried_status response.status_code

abbrev pub is_too_many_requests : Option Response → Bool
is_too_many_requests none = false
is_too_many_requests (some response) = is_status response.status_code 429

unfoldable pub should_retry_with_rate_limit : Option Response → Option Err → Bool
unfolding should_retry_default
should_retry_with_rate_limit response err =
    if should_retry_default response err then true else is_too_many_requests response

pub data Retry429Policy : Type 0 where
  retry_429_never retry_429_default retry_429_always : Retry429Policy

unfoldable pub retry_429_policy_for : Retry429Policy → Option Response → Option Err → Bool
unfolding should_retry_default should_retry_with_rate_limit
retry_429_policy_for retry_429_always = should_retry_with_rate_limit
retry_429_policy_for retry_429_never = should_retry_default
retry_429_policy_for retry_429_default = should_retry_default

-- action.IsSuccess
unfoldable pub is_success : Option Response → Option Err → Bool
is_success resp (some err) = false
is_success none none = false
is_success (some resp) none = ltb_ℤ resp.status_code (pos 400)

-- action.Err
unfoldable pub final_err : Option Err → Option Err
final_err none = some retry
final_err (some err) = some (join retry err)
