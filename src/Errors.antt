-- ===== src/Errors.antt =====
-- The errors of the packages: the sentinels, `errors.Join` of two, and those of code outside.
use resili.Prelude.{ℕ, ◌≡◌, refl, Bool, true, false, ◌==◌, Option, none, some}
use mathlib.Core.Bool.{◌||◌}

pub data Err : Type 0 where
  circuit_open : Err  -- breaker.ErrCircuitOpen
  limited : Err  -- limiter.ErrLimited
  timeout : Err  -- timeout.ErrTimeout, also named retry.ErrTimeout
  retry : Err  -- retry.ErrRetry
  rate_limited client_error server_error unknown client_creation : Err  -- rhttp
  ws_client_creation read_timeout session_timeout : Err  -- rws
  foreign : ℕ → Err  -- an error that no package of the module declares
  join : Err → Err → Err  -- errors.Join(a, b) of two errors that are not nil

pub Err-discrete : Discrete Err
Err-discrete = hlevel (resili.Prelude.ℕ_discrete)

abbrev pub equal : {A : Type 0} → Dec A → Bool
equal (yes _) = true
equal (no _) = false

-- errors.Is(err, target), for a target that is no join.
abbrev pub is_target : Err → Err → Bool
is_target target (join a b) = is_target target a || is_target target b
is_target target err = equal (Err-discrete err target)

-- The result of an action: a response and an error, nil being `none`.
abbrev pub Outcome : Type 0 → Type 0
Outcome R = R × Option Err
