-- ===== src/Http/Classifier/Agreement.antt =====
-- rhttp/: the classifier, the retry predicates and the test for success agree with one another.
use resili.Prelude.{◌≡◌, refl, Bool, true, false, ◌||◌, Option, none, some, arith}
use resili.Errors.{Err, rate_limited, retry, join, is_target, equal, Err-discrete}
use resili.Http.Classifier.{
  Response, classify_error, should_retry_default, retry_429_policy_for, Retry429Policy,
  retry_429_always, is_success, final_err, is_too_many_requests,
}

-- What the default predicate makes of an error from the classifier.
abbrev pub is_retried_class : Option Err → Bool
is_retried_class none = false
is_retried_class (some rate_limited) = false
is_retried_class (some _) = true

-- For a response that came without a transport error, the default predicate asks for a retry exactly
-- if the classifier reports an error other than ErrRateLimited, and the predicate of Retry429Always
-- exactly if the classifier reports an error.
pub classify_error-should_retry :
    (response : Option Response)
    → (should_retry_default response none ≡ is_retried_class (classify_error response none))
      × (retry_429_policy_for retry_429_always response none
          ≡ (should_retry_default response none || is_too_many_requests response))
unfolding classify_error should_retry_default retry_429_policy_for
classify_error-should_retry none = ground arith
classify_error-should_retry (some r) = ground arith

-- A response that counts as a success is never retried, under any policy for status 429, and the
-- classifier reports no error for it.
pub is_success-final :
    (p : Retry429Policy) (response : Option Response) (err : Option Err)
    → is_success response err ≡ true
    → (retry_429_policy_for p response err ≡ false) × (classify_error response err ≡ none)
unfolding is_success classify_error retry_429_policy_for
is_success-final p response err h = ground arith

equal_self : (a : Err) (d : Dec (a ≡ a)) → equal d ≡ true
equal_self a (yes _) = refl
equal_self a (no differ) = absurd (differ refl)

-- The error after the last attempt is ErrRetry for errors.Is, and is still whatever the last attempt's
-- error is.
pub final_err-is_target :
    (target err : Err)
    → is_target target err ≡ true
    → (e : Err) × (final_err (some err) ≡ some e)
      × (is_target retry e ≡ true)
      × (is_target target e ≡ true)
unfolding final_err
final_err-is_target target err h = (
  join retry err,
  refl,
  ground (arith, equal_self retry (Err-discrete retry retry)),
  ground arith,
)
