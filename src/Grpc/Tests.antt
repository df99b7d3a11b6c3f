-- ===== src/Grpc/Tests.antt =====
-- rgrpc/: the theorems at concrete inputs.
use resili.Prelude.{
  ℕ, suc, ◌+◌, ◌≡◌, refl, Bool, true, false, ℤ, pos, List, [], ◌∷◌, Option, none, some, arith,
  int64, ◌-ℤ◌,
}
use resili.Errors.{Err, foreign, circuit_open}
use resili.Breaker.State.{with_min_requests, with_timeout, new_breaker, apply_options, state_open}
use resili.Breaker.Execute.World.{World}
use resili.Grpc.{Request, new_retry_middleware}
use resili.Grpc.Client.Failing.{rpc, rpcs, failing_rpcs_open}

abbrev failure : Option Err
failure = some (foreign 7)

abbrev nothing : Request ℕ ℕ World
nothing = record {
  ctx = 0;
  call = 0;
  invoker = λ _ _ w. (none, w);
  request_deadline = pos 0;
  try_deadline = pos 0;
  now = pos 0;
}

-- A breaker that opens after two failures, and a clock that stands still.
abbrev still : World
still = record {
  cb = new_breaker (with_min_requests 2 ∷ []) (pos 0) (pos 0);
  clock = λ _. pos 5;
  reads = 0;
  executed = 0;
}

failing_rpcs_open_example :
    let w' = rpcs nothing 0 0 (failure ∷ failure ∷ []) still in
    (w'.cb.state ≡ state_open)
    × (w'.executed ≡ 0 + 2)
    × ((rpc nothing 0 0 failure w').0 ≡ some circuit_open)
    × ((rpc nothing 0 0 failure w').1.executed ≡ w'.executed)
unfolding new_breaker apply_options int64 ◌-ℤ◌ rpcs resili.Grpc.Client.new_unary_client_interceptor
    resili.Grpc.new_breaker_middleware resili.Breaker.Execute.execute
    resili.Breaker.State.count_request resili.Breaker.State.count_failure
    resili.Breaker.State.over_threshold resili.Breaker.State.trip resili.Prelude.ℕ_discrete
    resili.Prelude.◌*ℤ◌
failing_rpcs_open_example =
    failing_rpcs_open nothing 0 0 (with_min_requests 2 ∷ []) (pos 0) (pos 0) 512 still failure
      (failure ∷ []) failure refl refl (omega arith) refl (omega arith)
      ((refl, refl), ((refl, refl), tt)) (omega arith)
