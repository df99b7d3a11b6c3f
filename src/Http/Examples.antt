-- ===== src/Http/Examples.antt =====
-- rhttp/client.go and hedge.go: the theorems at concrete inputs.
use resili.Prelude.{
  ℕ, suc, ◌≡◌, ◌≤◌, ◌⊎◌, refl, inl, pos, Option, none, some, [], ◌∷◌, arith, update, int64, ◌-ℤ◌,
  ℕ_discrete, false,
}
use resili.Errors.{circuit_open, foreign, Outcome}
use resili.Breaker.State.{default_breaker, state_open}
use resili.Limiter.Options.{default_options}
use resili.Hedge.{new_state, cancel, on_state, drain_pending, report, release}
use resili.Hedge.Race as Race
use resili.Hedge.Race.{
  System, Reach, start, later, attempt_moves, main_moves, answer, receive, leave, initial,
}
use resili.Hedge.Execute.{raced}
use resili.Retry.Execute.{rounds}
use resili.Http.Classifier.{Response}
use resili.Http.Middleware.{Handler, Request}
use resili.Http.Client.{Pipeline, new_client, chain_over}
use resili.Http.Client.Sheds.{World, guarded, send, open_client_sheds}
use resili.Http.Hedge.{ReplyOf, hedged, http_replies}

-- An open circuit, and a limiter with two of three permits out.
abbrev broken : World ℕ
broken = record {
  limiter = record {
    opts = default_options;
    limit = pos 3;
    inflight = pos 2;
    rtt_min = pos 1;
    rtt_ema = pos 0;
    cycle_index = 0;
    stop_ch_closed = false;
    done_closed = false;
  };
  cb = record default_breaker { state = state_open; open_timeout = pos 5_000 };
  clock = λ k. pos (suc k);
  reads = 0;
  rest = 0;
}

abbrev bare : Pipeline ℕ (World ℕ)
bare = record {
  http_client = none;
  http_handler = none;
  timeout = none;
  retry = none;
  hedge = none;
  limiter = none;
  circuit_breaker = none;
  classifier = none;
  retry_hedge_fanout_limit = pos 0;
}

abbrev counted : Handler ℕ (World ℕ)
counted req w = ((none, none), record w { rest = suc w.rest })

open_client_sheds_example :
    (new_client (guarded (λ _ w. w) bare counted)
      ≡ inl (chain_over (guarded (λ _ w. w) bare counted) counted))
    × (send (λ _ w. w) bare counted (some 1) broken
        ≡ ((none, some circuit_open), record broken { reads = 3 }))
unfolding int64 ◌-ℤ◌
open_client_sheds_example =
    open_client_sheds (λ _ w. w) bare counted (some 1) broken (omega arith) (omega arith) refl
      (omega arith)

abbrev reply : Outcome (Option Response)
reply = (some (record { status_code = pos 200; body = some 1 }), none)

abbrev served : Handler ℕ ℕ
served req w = (reply, w)

abbrev asked : Request ℕ
asked = record { req = some 1; request_deadline = pos 0; try_deadline = pos 0; now = pos 0 }

-- The first attempt answers in time.
abbrev answered : System (Option Response)
answered = record {
  shared = report reply (initial new_state).shared;
  main = Race.waiting 1;
  attempt = update (initial {R = Option Response} new_state).attempt 0 Race.reported;
}

abbrev returned : System (Option Response)
returned = record answered {
  shared = on_state release (cancel (on_state drain_pending answered.shared));
  main = Race.returned reply;
}

returned_reached :
    Reach (record { max_attempts = 2; zero_value = none; ctx_err = foreign 1 }) new_state 3 returned
unfolding ℕ_discrete
returned_reached =
    later
      (later (later start (attempt_moves 0 {p = Race.reported} (answer reply)))
        (main_moves (receive refl)))
      (main_moves (leave (λ e. ground arith)))

http_replies_example :
    (ReplyOf {X = ℕ} (λ c q. q) served asked reply ⊎ (reply ≡ (none, some (foreign 1))))
    × (1 ≤ rounds (pos 2))
http_replies_example =
    http_replies {X = ℕ} (λ c q. q) (pos 10) (pos 2) (foreign 1) served asked
      (hedged {finished = reply ∷ []} reply ((0, 0, refl), tt)
        (raced refl 2 refl reply returned_reached refl))
      refl (omega arith)
