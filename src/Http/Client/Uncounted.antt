-- ===== src/Http/Client/Uncounted.antt =====
-- rhttp/client.go: a client with a circuit breaker and the classifier, whose server answers every
-- request. NewClient puts the classifier around the breaker, so the breaker sees no classified
-- error.
use resili.Prelude.{
  ℕ, suc, ◌+◌, ◌*◌, ◌^◌, ◌≤◌, ◌<◌, ◌≡◌, refl, ◌∙◌, false, ℤ, pos, List, [], ◌∷◌, Option, none, some,
  arith, inl, length,
}
use resili.Environment.{Clock, Cell}
use resili.Breaker.State.{
  CircuitBreaker, state_closed, current_stats, count_request, over_threshold, default_classifier,
}
use resili.Breaker.State.Trip.{over_threshold_exact}
use resili.Http.Classifier.{Response, classify_error}
use resili.Http.Middleware.{Handler, do_request, new_breaker_middleware, new_classifier_middleware}
use resili.Http.Client.{Pipeline, new_client}

-- `responses k` is the server's answer to the request number `k`.
pub record World : Type 0 where
  pub cb : CircuitBreaker
  pub clock : ℕ → ℤ
  pub reads : ℕ
  pub responses : ℕ → Response
  pub served : ℕ

abbrev pub world_clock : Clock World
world_clock = record {
  now = λ w. (w.clock w.reads, record w { reads = suc w.reads });
  sleep = λ d w. w;
}

abbrev pub cb_cell : Cell World CircuitBreaker
cb_cell = record { get = λ w. w.cb; put = λ cb w. record w { cb = cb } }

abbrev pub close_body : ℕ → World → World
close_body b w = w

module _ {Q : Type 0} where
  abbrev pub serve : Handler Q World
  serve req w = ((some (w.responses w.served), none), record w { served = suc w.served })

  abbrev pub pipeline : Pipeline Q World
  pipeline = record {
    http_client = none;
    http_handler = some serve;
    timeout = none;
    retry = none;
    hedge = none;
    limiter = none;
    circuit_breaker = some (new_breaker_middleware world_clock close_body cb_cell);
    classifier = some (new_classifier_middleware world_clock close_body);
    retry_hedge_fanout_limit = pos 0;
  }

  abbrev pub chain : Handler Q World
  chain =
      new_classifier_middleware world_clock close_body
        (new_breaker_middleware world_clock close_body cb_cell serve)

  unfoldable pub send_all : List (Option Q) → World → World
  send_all [] w = w
  send_all (q ∷ qs) w = send_all qs (do_request world_clock close_body chain q w).1

-- The circuit is closed, and of at most `n` requests in the current window none has failed.
record Calm (t n : ℕ) (cb : CircuitBreaker) : Type 0 where
  shut : cb.state ≡ state_closed
  classifier : cb.error_classifier ≡ default_classifier
  threshold : cb.error_threshold ≡ pos t
  least : 1 ≤ cb.min_requests
  requested : (current_stats cb).requests ≤ n
  failed : (current_stats cb).failures ≡ 0

count_request-Calm :
    (t n : ℕ) (now : ℤ) (cb : CircuitBreaker) → Calm t n cb → Calm t (suc n) (count_request now cb)
unfolding count_request
count_request-Calm t n now cb q =
    ground (arith, q.shut, q.classifier, q.threshold, q.least, q.requested, q.failed)

positive : (t r : ℕ) → 1 ≤ t → 1 ≤ r → 1 ≤ t * r
positive t r h k = grind arith

Calm-over_threshold :
    (t n : ℕ) (cb : CircuitBreaker)
    → 1 ≤ t
    → t ≤ 1024
    → n < 2 ^ 53
    → Calm t n cb
    → over_threshold cb (current_stats cb) ≡ false
Calm-over_threshold t n cb low high small q =
    over_threshold_exact cb (current_stats cb) t q.threshold high (omega (arith, q.requested))
      (omega (arith, q.failed))
    ∙ ground (arith, q.failed, q.least, positive t (current_stats cb).requests low)

send-Calm :
    {Q : Type 0} (t n : ℕ) (q : Option Q) (w : World)
    → 1 ≤ t
    → t ≤ 1024
    → suc n < 2 ^ 53
    → Calm t n w.cb
    → let (reply, w') = do_request world_clock close_body chain q w in
      Calm t (suc n) w'.cb
      × (w'.served ≡ suc w.served)
      × (reply ≡ (some (w.responses w.served), classify_error (some (w.responses w.served)) none))
unfolding do_request new_classifier_middleware new_breaker_middleware
    resili.Breaker.Execute.execute_with_result
send-Calm t n q w low high small calm =
    ground (
      arith,
      calm.shut,
      next,
      next.classifier,
      Calm-over_threshold t (suc n) cb₁ low high small next,
    )
  where
    cb₁ : CircuitBreaker
    cb₁ = count_request (w.clock w.reads) w.cb

    next : Calm t (suc n) cb₁
    next = count_request-Calm t n (w.clock w.reads) w.cb calm

all-Calm :
    {Q : Type 0} (t n : ℕ) (qs : List (Option Q)) (w : World)
    → 1 ≤ t
    → t ≤ 1024
    → n + length qs < 2 ^ 53
    → Calm t n w.cb
    → ((send_all qs w).cb.state ≡ state_closed) × ((send_all qs w).served ≡ w.served + length qs)
unfolding send_all
all-Calm t n [] w low high small calm = (calm.shut, omega arith)
all-Calm t n (q ∷ qs) w low high small calm =
    let (calm₁, more, reply) = send-Calm t n q w low high (omega arith) calm in
    let (shut, all) =
      all-Calm t (suc n) qs (do_request world_clock close_body chain q w).1 low high (omega arith)
        calm₁ in
    (shut, omega (arith, all, more))

-- NewClient accepts the pipeline of a breaker and the classifier and nothing else, and puts the
-- classifier outside. From then on, while the server answers every request, with whatever status
-- codes, the breaker does not open and every request reaches the server: the errors of the
-- classifier, such as ErrServerError for each status 500, are not counted. The threshold lies
-- between 1 and 1024, the minimum of requests is positive, the breaker is closed, with the default
-- error classifier and no failures in its window, and the requests are fewer than 2 ^ 53.
pub classified_never_trip :
    {Q : Type 0} (t : ℕ) (qs : List (Option Q)) (w : World)
    → 1 ≤ t
    → t ≤ 1024
    → (current_stats w.cb).requests + length qs < 2 ^ 53
    → w.cb.state ≡ state_closed
    → w.cb.error_classifier ≡ default_classifier
    → w.cb.error_threshold ≡ pos t
    → 1 ≤ w.cb.min_requests
    → (current_stats w.cb).failures ≡ 0
    → (new_client (pipeline {Q = Q}) ≡ inl chain)
      × ((send_all qs w).cb.state ≡ state_closed)
      × ((send_all qs w).served ≡ w.served + length qs)
unfolding new_client
classified_never_trip t qs w low high small shut classify thr least failed =
    let (a, b) = all-Calm t (current_stats w.cb).requests qs w low high small (record {
      shut = shut;
      classifier = classify;
      threshold = thr;
      least = least;
      requested = omega arith;
      failed = failed;
    }) in
    (refl, a, b)

-- One such request, on the closed breaker: the client gets the response together with the error of
-- the classifier.
pub classified_reply :
    {Q : Type 0} (t : ℕ) (q : Option Q) (w : World)
    → 1 ≤ t
    → t ≤ 1024
    → (current_stats w.cb).requests < 2 ^ 52
    → w.cb.state ≡ state_closed
    → w.cb.error_classifier ≡ default_classifier
    → w.cb.error_threshold ≡ pos t
    → 1 ≤ w.cb.min_requests
    → (current_stats w.cb).failures ≡ 0
    → (do_request world_clock close_body chain q w).0
      ≡ (some (w.responses w.served), classify_error (some (w.responses w.served)) none)
classified_reply t q w low high small shut classify thr least failed =
    (send-Calm t (current_stats w.cb).requests q w low high (omega arith) (record {
      shut = shut;
      classifier = classify;
      threshold = thr;
      least = least;
      requested = omega arith;
      failed = failed;
    })).2
