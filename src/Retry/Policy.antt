-- ===== src/Retry/Policy.antt =====
-- retry/policy.go: the retry policy, its options and the two backoff strategies.
pub mod Backoff
use resili.Prelude.{
  ℕ, ◌^◌, Bool, true, false, ℤ, pos, List, [], ◌∷◌, Option, none, some, int64, mul64,
}
use resili.Errors.{Err}
use resili.Environment.{Cell}
use resili.Retry.Budget.{Budget}

-- A policy whose budget, if it has one, is an object in the world `W`. A nil function is `none`.
pub record RetryPolicy (W R : Type 0) : Type 0 where
  pub backoff : Option (ℕ → ℤ)
  pub should_retry : Option (R → Option Err → Bool)
  pub budget : Option (Cell W Budget)
  pub max_attempts : ℤ
  pub try_deadline : ℤ

abbrev pub second : ℤ
second = pos 1_000_000_000

-- Shifts by 64 and more give 0, as the wrapped power of two does.
unfoldable pub exponential_backoff : ℕ → ℤ
exponential_backoff attempt = mul64 (int64 (pos (2 ^ attempt))) second

unfoldable pub linear_backoff : ℕ → ℤ
linear_backoff attempt = mul64 (int64 (pos attempt)) second

-- err != nil
abbrev pub on_error_retry : {R : Type 0} → R → Option Err → Bool
on_error_retry resp none = false
on_error_retry resp (some _) = true

abbrev pub or_else : {A : Type 0} → Option A → A → Option A
or_else none a = some a
or_else (some b) a = some b

module _ {W R : Type 0} where
  abbrev pub with_max_attempts : ℤ → RetryPolicy W R → RetryPolicy W R
  with_max_attempts n p = record p { max_attempts = n }

  abbrev pub with_try_deadline : ℤ → RetryPolicy W R → RetryPolicy W R
  with_try_deadline d p = record p { try_deadline = d }

  abbrev pub with_backoff : Option (ℕ → ℤ) → RetryPolicy W R → RetryPolicy W R
  with_backoff fn p = record p { backoff = fn }

  abbrev pub with_should_retry : Option (R → Option Err → Bool) → RetryPolicy W R → RetryPolicy W R
  with_should_retry fn p = record p { should_retry = fn }

  abbrev pub with_budget : Option (Cell W Budget) → RetryPolicy W R → RetryPolicy W R
  with_budget b p = record p { budget = b }

  unfoldable pub apply_options :
      List (RetryPolicy W R → RetryPolicy W R) → RetryPolicy W R → RetryPolicy W R
  apply_options [] p = p
  apply_options (opt ∷ opts) p = apply_options opts (opt p)

  unfoldable pub new_retry_policy : List (RetryPolicy W R → RetryPolicy W R) → RetryPolicy W R
  new_retry_policy opts =
      let p = apply_options opts (record {
        backoff = some linear_backoff;
        should_retry = none;
        budget = none;
        max_attempts = pos 3;
        try_deadline = pos 30_000_000_000;
      }) in
      record p { should_retry = or_else p.should_retry on_error_retry }
