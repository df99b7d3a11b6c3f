-- ===== src/Http/Tests.antt =====
-- rhttp/ and timeout/: the theorems at concrete inputs.
use resili.Prelude.{
  ℕ, suc, ◌+◌, ◌*◌, ◌+ℤ◌, int64, ◌≡◌, refl, pos, [], ◌∷◌, none, some, arith, inl, ◌≤ℤ◌,
}
use resili.Environment.{Clock, Action}
use resili.Breaker.State.{state_closed, default_breaker}
use resili.Timeout as Timeout
use resili.Timeout.Strict.{execute_strict}
use resili.Http.Classifier.{Response}
use resili.Http.Client.{new_client}
use resili.Http.Client.Uncounted.{World, pipeline, chain, send_all, classified_never_trip}

abbrev internal : Response
internal = record { status_code = pos 500; body = some 4 }

abbrev healthy : World
healthy = record {
  cb = default_breaker;
  clock = λ k. pos (k + 100);
  reads = 0;
  responses = λ k. internal;
  served = 0;
}

classified_never_trip_example :
    (new_client (pipeline {Q = ℕ}) ≡ inl chain)
    × ((send_all {Q = ℕ} (some 1 ∷ none ∷ some 2 ∷ []) healthy).cb.state ≡ state_closed)
    × ((send_all {Q = ℕ} (some 1 ∷ none ∷ some 2 ∷ []) healthy).served ≡ 0 + 3)
classified_never_trip_example =
    classified_never_trip {Q = ℕ} 512 (some 1 ∷ none ∷ some 2 ∷ []) healthy (omega arith)
      (omega arith) (omega arith) refl refl refl (omega arith) refl

-- The world is the number of the clock's readings, which show 10, 20, 30 and so on.
abbrev tens : Clock ℕ
tens = record { now = λ w. (pos (w * 10 + 10), suc w); sleep = λ d w. w }

abbrev act : Action ℕ ℕ
act = record { execute = λ w. ((7, none), w); now = pos 1; request_deadline = pos 0 }

execute_strict_example :
    (Timeout.execute_with_result tens 0 (pos 50) act 0 ≡ ((7, none), 1))
    × (pos 10 ≤ℤ pos 51)
    × (pos 1 ≤ℤ pos 51)
unfolding int64 ◌+ℤ◌
execute_strict_example =
    execute_strict tens 0 (pos 50) act 0 (unfold Timeout.execute_with_result in λ e. cc)
