-- ===== src/Ws/Client/Tests.antt =====
-- rws/client.go: the theorems about its connections at concrete inputs.
use resili.Prelude.{
  ℕ, suc, refl, true, false, pos, none, some, [], ◌∷◌, inl, ◌==◌, if◌then◌else◌, inr, ◌≡◌, Option,
}
use resili.Errors.{foreign}
use resili.Breaker.State.{default_breaker}
use resili.Limiter.Options.{default_options}
use resili.Retry.Policy.{RetryPolicy}
use resili.Ws.{Request, Response, TimeoutConfig, new_retry_middleware}
use resili.Ws.Retryable.{CloseErrors, should_retry_default}
use resili.Ws.Timeout.{NetErrors}
use resili.Ws.Client.{new_client}
use resili.Ws.Client.Conns.{by_policy, World, world_clock, sockets, kept_cell, IsKeptOrClosed}
use resili.Ws.Client.Conns.Reconnects.{handler, retry_reconnects}
use resili.Ws.Client.Conns.Requests.{
  Choice, pipeline, after_requests, no_requests, one_more, client_conns,
}

abbrev answer : Response ℕ
answer = record { payload = 3; message_type = pos 1 }

abbrev close_errors : CloseErrors
close_errors = record {
  is_close_error = λ _ _. false;
  is_unexpected_close_error = λ _ _. false;
  is_eof = λ _. false;
  is_unexpected_eof = λ _. false;
  is_close_sent = λ _. false;
  is_bad_handshake = λ _. false;
  is_net_error = λ _. true;
}

abbrev net_errors : NetErrors
net_errors = record {
  is_close_sent = λ _. false;
  is_net_timeout = λ _. false;
  message_contains = λ _ _. false;
}

abbrev limits : TimeoutConfig
limits = record { dial = pos 0; read = pos 0; session = pos 1_000 }

abbrev twice : RetryPolicy (World ℕ) (Option (Response ℕ))
twice = record {
  backoff = none;
  should_retry = none;
  budget = none;
  max_attempts = pos 2;
  try_deadline = pos 0;
}

abbrev everything : Choice ℕ
everything = record {
  limited = true;
  broken = true;
  timeout = some limits;
  retry = some (by_policy false twice);
}

-- The first dial fails, the first roundtrip fails, and all else succeeds.
abbrev new_world : World ℕ
new_world = record {
  limiter = record {
    opts = default_options;
    limit = pos 3;
    inflight = pos 0;
    rtt_min = pos 1;
    rtt_ema = pos 0;
    cycle_index = 0;
    stop_ch_closed = false;
    done_closed = false;
  };
  cb = default_breaker;
  budget = record { success = 0; retries = 0; ratio = pos 200 };
  clock = λ k. pos (suc k);
  reads = 0;
  kept = none;
  made = 0;
  closed = [];
  wire = λ k. (
    if k == 0 then some (foreign 1) else none,
    inl (record { payload = k; message_type = pos 1 }),
  );
  trips = 0;
  dials = λ k. if k == 0 then some (foreign 2) else none;
  dialed = 0;
}

abbrev hello : Request ℕ ℕ
hello = record {
  headers = 0;
  conn = none;
  url = some 1;
  payload = some 7;
  timeout_config = record { dial = pos 0; read = pos 0; session = pos 0 };
  message_type = pos 0;
  now = pos 0;
  request_deadline = pos 0;
}

client_conns_example : IsKeptOrClosed 0 (
    after_requests
      (new_client world_clock sockets kept_cell (pipeline close_errors net_errors everything))
      (hello ∷ hello ∷ hello ∷ [])
      new_world)
client_conns_example =
    client_conns 0 close_errors net_errors everything (hello ∷ hello ∷ hello ∷ []) new_world
      (one_more refl (one_more refl (one_more refl no_requests))) refl refl refl

-- Connection 4 is kept, and breaks.
abbrev broken_world : World ℕ
broken_world = record new_world {
  kept = some 4;
  made = 5;
  wire = λ k. (none, if k == 0 then inr (foreign 1) else inl answer);
  dials = λ _. none;
}

retry_reconnects_example :
    let (reply, w') =
      new_retry_middleware world_clock close_errors (some twice) handler hello broken_world in
    (reply ≡ (some answer, none))
    × (w'.kept ≡ some 5)
    × (w'.made ≡ 6)
    × (w'.closed ≡ 4 ∷ [])
    × (w'.trips ≡ 2)
unfolding should_retry_default
retry_reconnects_example =
    retry_reconnects hello close_errors twice 0 4 (foreign 1) answer broken_world refl refl refl
      refl refl refl refl refl refl refl refl
