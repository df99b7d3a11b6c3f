-- ===== src/Breaker/State.antt =====
-- breaker/breaker.go: the circuit breaker's state, its options, its windows, and the four sections of
-- ExecuteWithResult between which the action runs.
pub mod Edges
pub mod Trip
use resili.Prelude.{
  ℕ, suc, ◌+◌, ◌*◌, ◌%◌, ◌^◌, ◌≡◌, refl, Bool, true, false, ℤ, pos, List, [], ◌∷◌, Option, none,
  some, ◌&&◌, not, leb, ltb_ℤ, leb_ℤ, sub64, mul64, signed, u64, if◌then◌else◌, update,
}
use Prim.Native.String.{String}
use resili.Errors.{Err}

pub data State : Type 0 where
  state_closed state_open state_half_open : State

pub record WindowStats : Type 0 where
  pub start : ℤ
  pub requests : ℕ  -- atomic.Uint64
  pub failures : ℕ  -- atomic.Uint64

-- A `*windowStats` is an index into `windows`; those from `next_window` on are not allocated yet.
-- `NewBreaker` stores a window, so the pointer is never nil.
pub record CircuitBreaker : Type 0 where
  pub error_classifier : Option Err → Bool
  pub last_fail_time : ℤ
  pub open_timeout : ℤ
  pub window_duration : ℤ
  pub min_requests : ℕ
  pub error_threshold : ℤ  -- scaled by 1024
  pub requests : ℕ
  pub failures : ℕ
  pub window_start : ℤ
  pub windows : ℕ → WindowStats
  pub next_window : ℕ
  pub window : ℕ
  pub state : State
  pub half_open_in_flight : Bool

-- State.String. A State holds no other value, so its case "unknown" is never met.
abbrev pub state_string : State → String
state_string state_closed = "closed"
state_string state_open = "open"
state_string state_half_open = "half-open"

abbrev pub BreakerOption : Type 0
BreakerOption = CircuitBreaker → CircuitBreaker

abbrev pub with_timeout : ℤ → BreakerOption
with_timeout d cb = record cb { open_timeout = d }

abbrev pub with_window : ℤ → BreakerOption
with_window d cb = record cb { window_duration = d }

abbrev pub with_min_requests : ℕ → BreakerOption
with_min_requests n cb = record cb { min_requests = n }

-- WithErrorThreshold(v), given its scaled value int64(v * 1024).
abbrev pub with_error_threshold : ℤ → BreakerOption
with_error_threshold scaled cb = record cb { error_threshold = scaled }

abbrev pub with_error_classifier : (Option Err → Bool) → BreakerOption
with_error_classifier fn cb = record cb { error_classifier = fn }

-- err != nil
abbrev pub default_classifier : Option Err → Bool
default_classifier none = false
default_classifier (some _) = true

abbrev pub fresh_window : ℤ → WindowStats
fresh_window start = record { start = start; requests = 0; failures = 0 }

-- `&CircuitBreaker{…}` of NewBreaker, before the options.
abbrev pub default_breaker : CircuitBreaker
default_breaker = record {
  error_classifier = default_classifier;
  last_fail_time = pos 0;
  open_timeout = pos 5_000_000_000;
  window_duration = pos 10_000_000_000;
  min_requests = 20;
  error_threshold = pos 512;
  requests = 0;
  failures = 0;
  window_start = pos 0;
  windows = λ _. fresh_window (pos 0);
  next_window = 0;
  window = 0;
  state = state_closed;
  half_open_in_flight = false;
}

unfoldable pub apply_options : List BreakerOption → CircuitBreaker → CircuitBreaker
apply_options [] cb = cb
apply_options (opt ∷ opts) cb = apply_options opts (opt cb)

-- cb.window.Store(&windowStats{start: start}), with the counters of `cb` set back to 0.
abbrev pub open_window : ℤ → ℤ → CircuitBreaker → CircuitBreaker
open_window window_start start cb = record cb {
  windows = update cb.windows cb.next_window (fresh_window start);
  next_window = suc cb.next_window;
  window = cb.next_window;
  window_start = window_start;
  requests = 0;
  failures = 0;
}

-- `now₁` and `now₂` are the two readings of the clock.
unfoldable pub new_breaker : List BreakerOption → ℤ → ℤ → CircuitBreaker
new_breaker opts now₁ now₂ =
    open_window now₁ now₂ (record (apply_options opts default_breaker) { state = state_closed })

abbrev pub current_stats : CircuitBreaker → WindowStats
current_stats cb = cb.windows cb.window

unfoldable pub rotate_window : ℤ → CircuitBreaker → CircuitBreaker
rotate_window now cb =
    if ltb_ℤ (sub64 now (current_stats cb).start) cb.window_duration
    then cb
    else open_window now now cb

-- The active window is the field `window` of the result.
abbrev pub current_window : ℤ → CircuitBreaker → CircuitBreaker
current_window now cb = rotate_window now cb

abbrev pub is_failure : CircuitBreaker → Option Err → Bool
is_failure cb err = cb.error_classifier err

-- The fast path before the action: `window.requests.Add(1)`. The goroutine keeps the pointer `window`.
unfoldable pub count_request : ℤ → CircuitBreaker → CircuitBreaker
unfolding rotate_window
count_request now cb =
    let c = current_window now cb in
    let stats = current_stats c in
    let n = u64 (stats.requests + 1) in
    record c { windows = update c.windows c.window (record stats { requests = n }); requests = n }

-- `window.failures.Add(1)`, for the window that the goroutine has kept.
unfoldable pub count_failure : ℕ → CircuitBreaker → CircuitBreaker
count_failure window cb =
    let stats = cb.windows window in
    let n = u64 (stats.failures + 1) in
    record cb { windows = update cb.windows window (record stats { failures = n }); failures = n }

-- The test that opens the circuit.
unfoldable pub over_threshold : CircuitBreaker → WindowStats → Bool
over_threshold cb stats =
    leb cb.min_requests stats.requests
    && leb_ℤ (mul64 cb.error_threshold (signed stats.requests))
        (mul64 (signed stats.failures) (pos 1024))

abbrev pub is_closed : State → Bool
is_closed state_closed = true
is_closed _ = false

-- The locked section of the fast path.
unfoldable pub trip : ℤ → CircuitBreaker → CircuitBreaker
trip now cb =
    if is_closed cb.state then record cb { state = state_open; last_fail_time = now } else cb

-- How the slow path goes on after its first locked section.
pub data Admission : Type 0 where
  rejected : Admission
  probe : Admission  -- the state is half-open and this goroutine has taken the probe
  passed : Admission  -- the state was closed when the lock was taken

abbrev admit_half_open : CircuitBreaker → CircuitBreaker × Admission
admit_half_open cb =
    if cb.half_open_in_flight
    then (cb, rejected)
    else (record cb { half_open_in_flight = true }, probe)

abbrev admit_in : State → ℤ → CircuitBreaker → CircuitBreaker × Admission
admit_in state_closed now cb = (cb, passed)
admit_in state_open now cb =
    if leb_ℤ cb.open_timeout (sub64 now cb.last_fail_time)
    then admit_half_open (record cb { state = state_half_open })
    else (cb, rejected)
admit_in state_half_open now cb = admit_half_open cb

-- The first locked section of the slow path, at the time `now`.
unfoldable pub admit : ℤ → CircuitBreaker → CircuitBreaker × Admission
admit now cb = admit_in cb.state now cb

abbrev pub is_half_open : State → Bool
is_half_open state_half_open = true
is_half_open _ = false

-- The second locked section of the slow path; `now₁` and `now₂` are its readings of the clock.
unfoldable pub settle : Option Err → ℤ → ℤ → CircuitBreaker → CircuitBreaker
settle err now₁ now₂ cb =
    if is_half_open cb.state
    then (let c = record cb { half_open_in_flight = false } in
        if is_failure cb err
        then record c { state = state_open; last_fail_time = now₁ }
        else open_window now₁ now₂ (record c { state = state_closed }))
    else cb
