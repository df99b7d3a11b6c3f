-- ===== src/Http/Client/Accounts/Requests.antt =====
-- rhttp/client.go: any number of requests through the chain that NewClient builds, and the bodies that
-- the caller gets.
use resili.Prelude.{
  ℕ, ◌+◌, ◌≡◌, ◌⊎◌, inl, inr, Bool, true, false, ℤ, pos, Option, none, some, List, [], ◌∷◌, arith,
  occurrences, ltb, ◌&&◌, if◌then◌else◌,
}
use resili.Errors.{Err}
use resili.Http.Classifier.{Response}
use resili.Http.Middleware.{
  Handler, Middleware, do_request, new_limiter_middleware, new_breaker_middleware,
  new_classifier_middleware, new_timeout_middleware, new_retry_middleware,
}
use resili.Http.Client.{Pipeline, wrap}
use resili.Http.Client.Accounts.{
  World, Retrying, policy_of, world_clock, limiter_cell, cb_cell, close_body, serve, body_is,
  IsWithin, IsAccounted, HandlerAnswers, limiter-answers, breaker-answers, classifier-answers,
  retry-answers, timeout-answers,
}

-- What a user chooses: a limiter, a breaker, the classifier, a timeout, retries.
pub record Choice : Type 0 where
  pub limited : Bool
  pub broken : Bool
  pub classified : Bool
  pub timeout : Option ℤ
  pub retry : Option Retrying

-- No timeout middleware drops a response.
abbrev pub is_untimed : Option ℤ → Bool
is_untimed none = true
is_untimed (some d) = false

module _ {Q : Type 0} where
  abbrev pub limiter_of : Bool → Option (Middleware Q World)
  limiter_of true = some (new_limiter_middleware world_clock close_body limiter_cell)
  limiter_of false = none

  abbrev pub breaker_of : Bool → Option (Middleware Q World)
  breaker_of true = some (new_breaker_middleware world_clock close_body cb_cell)
  breaker_of false = none

  abbrev pub classifier_of : Bool → Option (Middleware Q World)
  classifier_of true = some (new_classifier_middleware world_clock close_body)
  classifier_of false = none

  abbrev pub timeout_of : Option ℤ → Option (Middleware Q World)
  timeout_of none = none
  timeout_of (some d) = some (new_timeout_middleware world_clock close_body d)

  abbrev pub retry_of : Option Retrying → Option (Middleware Q World)
  retry_of none = none
  retry_of (some retrying) = some (new_retry_middleware world_clock close_body (policy_of retrying))

  abbrev pub pipeline : Choice → Pipeline Q World
  pipeline choice = record {
    http_client = none;
    http_handler = some serve;
    timeout = timeout_of choice.timeout;
    retry = retry_of choice.retry;
    hedge = none;
    limiter = limiter_of choice.limited;
    circuit_breaker = breaker_of choice.broken;
    classifier = classifier_of choice.classified;
    retry_hedge_fanout_limit = pos 0;
  }

  -- The responses that the caller gets for the requests, one after the other, and the world after
  -- them, if there is a client.
  abbrev pub after_requests :
      Handler Q World ⊎ Err → List (Option Q) → World → List (Option Response) × World
  after_requests (inl chain) [] w = ([], w)
  after_requests (inl chain) (q ∷ qs) w =
      let (reply, w₁) = do_request world_clock close_body chain q w in
      let (resps, w₂) = after_requests (inl chain) qs w₁ in (reply.0 ∷ resps, w₂)
  after_requests (inr err) qs w = ([], w)

-- How many of the responses have the body `c`.
abbrev pub bodies_in : ℕ → List (Option Response) → ℕ
bodies_in c [] = 0
bodies_in c (resp ∷ resps) = body_is c resp + bodies_in c resps

pub IsWithin-eq : (exact : Bool) {m n : ℕ} (l : ℕ) → m ≡ n → IsWithin exact m l → IsWithin exact n l
IsWithin-eq true l e h = omega arith
IsWithin-eq false l e h = omega arith

module _ {Q : Type 0} (c : ℕ) where
  module _ (held : ℕ) (exact : Bool) (next : Handler Q World)
      (answers : HandlerAnswers exact c held next) where
    limiter-wrapped : (b : Bool) → HandlerAnswers exact c held (wrap (limiter_of b) next)
    limiter-wrapped true = limiter-answers c held exact next answers
    limiter-wrapped false = answers

    breaker-wrapped : (b : Bool) → HandlerAnswers exact c held (wrap (breaker_of b) next)
    breaker-wrapped true = breaker-answers c held exact next answers
    breaker-wrapped false = answers

    classifier-wrapped : (b : Bool) → HandlerAnswers exact c held (wrap (classifier_of b) next)
    classifier-wrapped true = classifier-answers c held exact next answers
    classifier-wrapped false = answers

    pub retry-wrapped :
        (retry : Option Retrying) → HandlerAnswers exact c held (wrap (retry_of retry) next)
    retry-wrapped none = answers
    retry-wrapped (some retrying) = retry-answers c held exact next answers retrying

  -- `plain` tells whether anything else drops no response.
  timeout-wrapped :
      (held : ℕ) (plain : Bool) (d : Option ℤ) (next : Handler Q World)
      → HandlerAnswers (is_untimed d && plain) c held next
      → HandlerAnswers (is_untimed d && plain) c held (wrap (timeout_of d) next)
  timeout-wrapped held plain none next answers = answers
  timeout-wrapped held plain (some d) next answers = timeout-answers c held next answers d

  -- The protections around the attempts.
  pub outer-answers :
      (held : ℕ) (plain : Bool) (choice : Choice) (inner : Handler Q World)
      → HandlerAnswers (is_untimed choice.timeout && plain) c held inner
      → HandlerAnswers (is_untimed choice.timeout && plain) c held (
          wrap (limiter_of choice.limited) (
            wrap
              (classifier_of choice.classified)
              (wrap (breaker_of choice.broken) (wrap (timeout_of choice.timeout) inner))))
  outer-answers held plain choice inner answers =
      let exact = is_untimed choice.timeout && plain in
      limiter-wrapped held exact _
        (classifier-wrapped held exact _
          (breaker-wrapped held exact _ (timeout-wrapped held plain choice.timeout _ answers)
            choice.broken)
          choice.classified)
        choice.limited

  pub requests-IsAccounted :
      (exact : Bool) (chain : Handler Q World)
      → ((held : ℕ) → HandlerAnswers exact c held chain)
      → (qs : List (Option Q)) (held : ℕ) (w : World) → IsAccounted exact c held none w
      → let (resps, w') = after_requests (inl chain) qs w in
        IsWithin exact
          (occurrences c w'.closed + held + bodies_in c resps)
          (if ltb c w'.made then 1 else 0)
  unfolding do_request
  requests-IsAccounted exact chain answers [] held w h = h
  requests-IsAccounted exact chain answers (q ∷ qs) held w h =
      let (reply, w₁) = do_request world_clock close_body chain q w in
      let rest = after_requests (inl chain) qs w₁ in
      IsWithin-eq exact _ (omega arith) (
        requests-IsAccounted exact chain answers qs (held + body_is c reply.0) w₁
          (IsWithin-eq exact _ (omega arith) (answers held _ _ h)))
