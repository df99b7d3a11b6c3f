-- ===== src/Limiter/State.antt =====
-- limiter/brr.go: the limiter's state and its methods, each as one uninterrupted call.
pub mod Bounds
pub mod Rtt
pub mod Decay
use resili.Prelude.{
  ℕ, ◌+◌, ◌%◌, ◌^◌, ◌≡◌, refl, Bool, true, false, ℤ, pos, negsuc, List, [], ◌∷◌, none, some, leb_ℤ,
  ltb_ℤ, eq_ℤ, add64, sub64, mul64, shr10, quot64, if◌then◌else◌, length, get_elem?,
}
use mathlib.Core.Option as Maybe
use resili.Limiter.Options.{Options, Option, default_options, apply_options, guard_options}

pub record Limiter : Type 0 where
  pub opts : Options
  pub limit : ℤ  -- atomic.Int64
  pub inflight : ℤ  -- atomic.Int64
  pub rtt_min : ℤ  -- atomic.Int64
  pub rtt_ema : ℤ  -- atomic.Int64
  pub cycle_index : ℕ  -- atomic.Uint32
  pub stop_ch_closed : Bool
  pub done_closed : Bool

abbrev pub hour : ℤ
hour = pos 3_600_000_000_000

unfoldable pub new_limiter : List Option → Limiter
new_limiter opts =
    let o = guard_options (apply_options opts default_options) in
    record {
      opts = o;
      limit = o.initial_limit;
      inflight = pos 0;
      rtt_min = hour;
      rtt_ema = pos 0;
      cycle_index = 0;
      stop_ch_closed = false;
      done_closed = false;
    }

-- The returned start time, and whether the permit was given.
unfoldable pub acquire : ℤ → Limiter → Limiter × ℤ × Bool
acquire now l =
    if leb_ℤ l.limit l.inflight
    then (l, pos 0, false)
    else (record l { inflight = add64 l.inflight (pos 1) }, now, true)

-- old * (1 - smoothing) + ns * smoothing
unfoldable pub ema : ℤ → ℤ → ℤ → ℤ
ema smoothing old ns = shr10 (add64 (mul64 old (sub64 (pos 1024) smoothing)) (mul64 ns smoothing))

unfoldable pub observe_rtt : ℤ → Limiter → Limiter
observe_rtt ns l = record l {
  rtt_min = if leb_ℤ l.rtt_min ns then l.rtt_min else ns;
  rtt_ema = if eq_ℤ l.rtt_ema (pos 0) then ns else ema l.opts.smoothing l.rtt_ema ns;
}

unfoldable pub done : ℤ → ℤ → Bool → Limiter → Limiter
unfolding observe_rtt
done start end success l =
    if leb_ℤ l.inflight (pos 0)
    then l
    else (let l' = record l { inflight = sub64 l.inflight (pos 1) } in
        if success then observe_rtt (sub64 end start) l' else l')

-- The new limit before it is held between the bounds.
unfoldable pub target_limit : ℤ → ℤ → ℤ → ℤ → ℤ
target_limit limit gain min_rtt ema_rtt =
    let target = shr10 (mul64 limit gain) in
    if ltb_ℤ (pos 0) (sub64 ema_rtt min_rtt)
    then shr10 (mul64 target (quot64 (mul64 min_rtt (pos 1024)) ema_rtt))
    else target

unfoldable pub clamp_limit : Options → ℤ → ℤ
clamp_limit o target =
    let raised = if ltb_ℤ target o.min_limit then o.min_limit else target in
    if ltb_ℤ o.max_limit raised then o.max_limit else raised

abbrev adjust_by : Limiter → ℕ → Maybe.Option ℤ → Maybe.Option Limiter
adjust_by l idx none = none
adjust_by l idx (some gain) = some (record l {
  cycle_index = idx;
  limit = clamp_limit l.opts (target_limit l.limit gain l.rtt_min l.rtt_ema);
})

-- `none` is the panic of the index into the gain cycle.
unfoldable pub adjust : Limiter → Maybe.Option Limiter
unfolding clamp_limit
adjust l =
    if eq_ℤ l.rtt_ema (pos 0)
    then some l
    else (let idx = (l.cycle_index + 1) % 2 ^ 32 in
        adjust_by l idx (get_elem? l.opts.gain_cycle (idx % length l.opts.gain_cycle)))

-- `Close` closes stopCh (once) and then waits until the control loop has ended.
unfoldable pub close : Limiter → Limiter
close l = record l { stop_ch_closed = true }

abbrev pub is_stopped : Limiter → Bool
is_stopped l = l.done_closed

abbrev recovered : Limiter → Maybe.Option Limiter → Limiter
recovered l none = record l { done_closed = true }
recovered l (some l') = l'

-- A turn of the control loop, in which the timer or stopCh was chosen. A panic ends the loop.
unfoldable pub on_tick : Limiter → Limiter
unfolding adjust
on_tick l = if l.done_closed then l else recovered l (adjust l)

unfoldable pub on_stop : Limiter → Limiter
on_stop l = if l.stop_ch_closed then record l { done_closed = true } else l

-- The calls that clients make, and the turns of the control loop, one after the other.
pub data Event : Type 0 where
  acquired : (now : ℤ) → Event
  finished : (start end : ℤ) (success : Bool) → Event
  ticked closed stopped : Event

unfoldable pub handle : Limiter → Event → Limiter
unfolding acquire done close on_tick on_stop
handle l (acquired now) = (acquire now l).0
handle l (finished start end success) = done start end success l
handle l ticked = on_tick l
handle l closed = close l
handle l stopped = on_stop l

unfoldable pub run : Limiter → List Event → Limiter
run l [] = l
run l (e ∷ es) = run (handle l e) es
