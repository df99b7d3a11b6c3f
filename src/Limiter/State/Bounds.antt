-- ===== src/Limiter/State/Bounds.antt =====
-- limiter/brr.go: the bounds that the limiter keeps, whatever it is told and measures.
use resili.Prelude.{
  ℕ, ◌+◌, ◌%◌, ◌^◌, ◌<◌, ◌≡◌, ◌⊎◌, refl, Bool, true, false, ℤ, pos, negsuc, List, [], ◌∷◌, ◌≤ℤ◌,
  ◌<ℤ◌, ◌+ℤ◌, ◌-ℤ◌, int64, IsInt64, arith, length, get_elem?, get_elem?-some, some, pos_part, add64,
  sub64, inl, ◌-◌,
}
use resili.Limiter.Options.{Options, Option, default_options, apply_options, guard_options}
use resili.Limiter.State.{
  Limiter, new_limiter, acquire, done, target_limit, clamp_limit, adjust, on_tick, Event, acquired,
  finished, ticked, closed, stopped, handle, run,
}

-- What the guards of `NewLimiter` leave: no empty cycle, and bounds that leave room.
pub record IsConfigured (o : Options) : Type 0 where
  pub gains : 0 < length o.gain_cycle
  pub initial : pos 1 ≤ℤ o.initial_limit
  pub positive : pos 1 ≤ℤ o.min_limit
  pub ordered : o.min_limit ≤ℤ o.max_limit
  pub interval : pos 1 ≤ℤ o.update_interval

guard_options-IsConfigured : (o : Options) → IsConfigured (guard_options o)
unfolding guard_options
guard_options-IsConfigured o = ground arith

-- Whatever options the caller passes, the new limiter is configured so that no adjustment panics.
pub new_limiter-IsConfigured : (opts : List Option) → IsConfigured (new_limiter opts).opts
unfolding new_limiter
new_limiter-IsConfigured opts = guard_options-IsConfigured (apply_options opts default_options)

clamp_limit-bounds :
    (o : Options) (t : ℤ)
    → IsConfigured o
    → (o.min_limit ≤ℤ clamp_limit o t) × (clamp_limit o t ≤ℤ o.max_limit)
unfolding clamp_limit
clamp_limit-bounds o t c = ground (arith, c.ordered)

-- After a sample, an adjustment finds its gain and stores a limit between the configured bounds.
adjust_by_gain :
    (l : Limiter) (idx : ℕ)
    → IsConfigured l.opts
    → (gain : ℤ) × (get_elem? l.opts.gain_cycle (idx % length l.opts.gain_cycle) ≡ some gain)
adjust_by_gain l idx c =
    get_elem?-some l.opts.gain_cycle (idx % length l.opts.gain_cycle) (grind (arith, c.gains))

-- What an adjustment may do to the limiter.
record Adjusts (l l' : Limiter) : Type 0 where
  opts : l'.opts ≡ l.opts
  inflight : l'.inflight ≡ l.inflight
  done_closed : l'.done_closed ≡ l.done_closed
  stop_ch_closed : l'.stop_ch_closed ≡ l.stop_ch_closed
  limit : (l'.limit ≡ l.limit) ⊎ ((l.opts.min_limit ≤ℤ l'.limit) × (l'.limit ≤ℤ l.opts.max_limit))

on_tick-Adjusts : (l : Limiter) → IsConfigured l.opts → Adjusts l (on_tick l)
unfolding on_tick adjust
on_tick-Adjusts l c =
    let (gain, found) = adjust_by_gain l ((l.cycle_index + 1) % 2 ^ 32) c in
    ground
      (arith, found, clamp_limit-bounds l.opts (target_limit l.limit gain l.rtt_min l.rtt_ema) c)

-- With `peak` the greater of the initial and the maximal limit. The control loop has ended only if
-- `Close` was called.
pub record IsSound (peak : ℤ) (l : Limiter) : Type 0 where
  pub configured : IsConfigured l.opts
  pub fits : IsInt64 peak
  pub capped : l.opts.max_limit ≤ℤ peak
  pub limit_positive : pos 1 ≤ℤ l.limit
  pub limit_capped : l.limit ≤ℤ peak
  pub inflight_natural : pos 0 ≤ℤ l.inflight
  pub inflight_capped : l.inflight ≤ℤ peak
  pub alive : (l.done_closed ≡ false) ⊎ (l.stop_ch_closed ≡ true)

pub add64_one : (i m : ℤ) → pos 0 ≤ℤ i → i <ℤ m → IsInt64 m → add64 i (pos 1) ≡ pos (pos_part i + 1)
unfolding ◌+ℤ◌ int64
add64_one (pos i) (pos m) h lt w = ground arith
add64_one (pos i) (negsuc m) h lt w = absurd (omega arith)
add64_one (negsuc i) m h lt w = absurd (omega arith)

pub sub64_one : (i : ℤ) → pos 1 ≤ℤ i → IsInt64 i → sub64 i (pos 1) ≡ pos (pos_part i - 1)
unfolding ◌-ℤ◌ int64
sub64_one (pos i) h w = ground arith
sub64_one (negsuc i) h w = absurd (omega arith)

IsInt64-le : (i m : ℤ) → pos 0 ≤ℤ i → i ≤ℤ m → IsInt64 m → IsInt64 i
IsInt64-le (pos i) (pos m) h le w = omega arith
IsInt64-le (pos i) (negsuc m) h le w = absurd (omega arith)
IsInt64-le (negsuc i) m h le w = absurd (omega arith)

-- The permits out after one more or one fewer.
record Counted (peak i : ℤ) : Type 0 where
  natural : pos 0 ≤ℤ i
  capped : i ≤ℤ peak

acquire-Counted :
    (peak now : ℤ) (l : Limiter) → IsSound peak l → Counted peak (acquire now l).0.inflight
unfolding acquire
acquire-Counted peak now l h =
    ground (arith, h.limit_capped, h.inflight_natural, add64_one l.inflight peak)

acquire-IsSound : (peak now : ℤ) (l : Limiter) → IsSound peak l → IsSound peak (acquire now l).0
unfolding acquire
acquire-IsSound peak now l h = ground (arith, acquire-Counted peak now l h)

done-Counted :
    (peak start end : ℤ) (success : Bool) (l : Limiter)
    → IsSound peak l
    → Counted peak (done start end success l).inflight
unfolding done
done-Counted peak start end success l h = ground (
  arith,
  h.inflight_natural,
  h.inflight_capped,
  sub64_one l.inflight,
  IsInt64-le l.inflight peak h.inflight_natural h.inflight_capped h.fits,
)

-- `Done` touches the number of permits and the two measurements only.
done-IsSound :
    (peak start end : ℤ) (success : Bool) (l : Limiter)
    → IsSound peak l
    → IsSound peak (done start end success l)
unfolding done
done-IsSound peak start end success l h = ground (arith, done-Counted peak start end success l h)

on_tick-IsSound : (peak : ℤ) (l : Limiter) → IsSound peak l → IsSound peak (on_tick l)
on_tick-IsSound peak l h = ground (arith, on_tick-Adjusts l h.configured)

handle-IsSound : (peak : ℤ) (l : Limiter) (e : Event) → IsSound peak l → IsSound peak (handle l e)
unfolding handle
handle-IsSound peak l (acquired now) h = acquire-IsSound peak now l h
handle-IsSound peak l (finished start end success) h = done-IsSound peak start end success l h
handle-IsSound peak l ticked h = on_tick-IsSound peak l h
handle-IsSound peak l closed h = ground arith
handle-IsSound peak l stopped h = ground arith

run-IsSound : (peak : ℤ) (es : List Event) (l : Limiter) → IsSound peak l → IsSound peak (run l es)
unfolding run
run-IsSound peak [] l h = h
run-IsSound peak (e ∷ es) l h = run-IsSound peak es (handle l e) (handle-IsSound peak l e h)

-- From `NewLimiter` on, through any calls and any turns of the control loop: the limit stays between
-- 1 and `peak`, the permits out stay between 0 and `peak`, the options stay valid, and the control
-- loop ends only after `Close`. `peak` is any int64 that both the initial and the maximal limit, as
-- `NewLimiter` corrects them, do not exceed.
pub new_limiter-run :
    (opts : List Option) (peak : ℤ) (es : List Event)
    → IsInt64 peak
    → (new_limiter opts).limit ≤ℤ peak
    → (new_limiter opts).opts.max_limit ≤ℤ peak
    → IsSound peak (run (new_limiter opts) es)
new_limiter-run opts peak es fits initial capped = run-IsSound peak es (new_limiter opts) (
    unfold new_limiter in
    record {
      configured = c;
      fits = fits;
      capped = capped;
      limit_positive = c.initial;
      limit_capped = initial;
      inflight_natural = omega arith;
      inflight_capped = omega (arith, c.initial);
      alive = inl refl;
    })
  where
    c : IsConfigured (new_limiter opts).opts
    c = new_limiter-IsConfigured opts
