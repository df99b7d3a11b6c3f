-- ===== src/Limiter/State/Rtt.antt =====
-- limiter/brr.go: the two measurements of the round trip time, and how they move the limit.
use resili.Prelude.{
  ℕ, ◌+◌, ◌-◌, ◌*◌, ◌/◌, ◌^◌, ◌≤◌, ◌<◌, ◌≡◌, ◌⊎◌, ap, ◌∙◌, Bool, true, ℤ, pos, negsuc, List, [],
  ◌∷◌, ◌≤ℤ◌, ◌-ℤ◌, int64, arith, sub64, add64_pos, sub64_pos, mul64_pos, quot64, pos_part, neg_part,
  eq_ℤ, if◌then◌else◌,
}
use resili.Limiter.Options.{Options}
use resili.Limiter.State.{
  Limiter, done, ema, observe_rtt, target_limit, on_tick, Event, finished, ticked, handle, run,
}

pub mul_mono : (a b c : ℕ) → a ≤ b → a * c ≤ b * c
mul_mono a b c h = grind arith

pub sub64_le : (a b : ℕ) → b ≤ a → a < 2 ^ 63 → sub64 (pos a) (pos b) ≡ pos (a - b)
sub64_le a b h k = sub64_pos a b k (omega arith) ∙ ground arith

weights : (x s : ℕ) → s ≤ 1024 → x * (1024 - s) + x * s ≡ x * 1024
weights x s h = let e : 1024 - s + s ≡ 1024 = omega arith in omega (arith, ap (λ (k : ℕ). x * k) e)

-- The average of values below 2 ^ 53 nanoseconds (104 days) does not wrap.
ema_exact :
    (s o n : ℕ)
    → s ≤ 1024
    → o < 2 ^ 53
    → n < 2 ^ 53
    → ema (pos s) (pos o) (pos n) ≡ pos ((o * (1024 - s) + n * s) / 1024)
unfolding ema
ema_exact s o n hs ho hn = rw (
  sub64_le 1024 s hs (omega arith),
  mul64_pos o (1024 - s) (omega (arith, weighted)),
  mul64_pos n s (omega (arith, weighted)),
  add64_pos (o * (1024 - s)) (n * s) (omega (arith, weighted)),
)
  where
    weighted : o * (1024 - s) + n * s < 2 ^ 63
    weighted = omega (
      arith,
      mul_mono o (2 ^ 53 - 1) (1024 - s) (omega arith),
      mul_mono n (2 ^ 53 - 1) s (omega arith),
      weights (2 ^ 53 - 1) s hs,
    )

-- The new average lies between the old one and the sample.
pub ema_bounds :
    (lo hi s o n : ℕ)
    → s ≤ 1024
    → hi < 2 ^ 53
    → (lo ≤ o) × (o ≤ hi)
    → (lo ≤ n) × (n ≤ hi)
    → (pos lo ≤ℤ ema (pos s) (pos o) (pos n)) × (ema (pos s) (pos o) (pos n) ≤ℤ pos hi)
ema_bounds lo hi s o n hs small ho hn = rw (ema_exact s o n hs (omega arith) (omega arith)) (
    omega (
      arith,
      mul_mono lo o (1024 - s) ho.0,
      mul_mono lo n s hn.0,
      mul_mono o hi (1024 - s) ho.1,
      mul_mono n hi s hn.1,
      weights lo s hs,
      weights hi s hs,
    ))

-- A permit given back with timestamps in order, and a round trip between `lo` and `hi`.
abbrev pub TakesBetween : ℕ → ℕ → Event → Type 0
TakesBetween lo hi (finished (pos start) (pos end) success) =
    (start + lo ≤ end) × (end ≤ start + hi) × (end < 2 ^ 63)
TakesBetween lo hi (finished _ _ success) = ⊥
TakesBetween lo hi _ = Unit

abbrev pub IsTimed : ℕ → ℕ → List Event → Type 0
IsTimed lo hi [] = Unit
IsTimed lo hi (e ∷ es) = TakesBetween lo hi e × IsTimed lo hi es

abbrev pub IsAverage : ℕ → ℕ → ℤ → Type 0
IsAverage lo hi a = (a ≡ pos 0) ⊎ ((pos lo ≤ℤ a) × (a ≤ℤ pos hi))

module _ (lo hi s : ℕ) (smoothing : s ≤ 1024) (small : hi < 2 ^ 53) where
  observe_rtt-IsAverage :
      (l : Limiter) (n : ℕ)
      → l.opts.smoothing ≡ pos s
      → lo ≤ n
      → n ≤ hi
      → IsAverage lo hi l.rtt_ema
      → IsAverage lo hi (observe_rtt (pos n) l).rtt_ema
  unfolding observe_rtt
  observe_rtt-IsAverage l n e above below h = go l.rtt_ema h
    where
      go :
          (a : ℤ)
          → IsAverage lo hi a
          → IsAverage lo hi (if eq_ℤ a (pos 0) then pos n else ema l.opts.smoothing a (pos n))
      go (pos o) h = rw e (ground (arith, ema_bounds lo hi s o n))
      go (negsuc o) h = absurd (ground arith)

  done-IsAverage :
      (l : Limiter) (start end : ℕ) (success : Bool)
      → l.opts.smoothing ≡ pos s
      → start + lo ≤ end
      → end ≤ start + hi
      → end < 2 ^ 63
      → IsAverage lo hi l.rtt_ema
      → IsAverage lo hi (done (pos start) (pos end) success l).rtt_ema
  unfolding done
  done-IsAverage l start end success e above below word h =
      rw (sub64_le end start (omega arith) word) (
        ground (
          arith,
          observe_rtt-IsAverage (record l { inflight = sub64 l.inflight (pos 1) }) (end - start) e
              (omega arith) (omega arith) h,
        ))

pub on_tick_keeps :
    (l : Limiter)
    → ((on_tick l).opts ≡ l.opts)
      × ((on_tick l).rtt_ema ≡ l.rtt_ema)
      × ((on_tick l).rtt_min ≡ l.rtt_min)
unfolding on_tick
on_tick_keeps l = ground arith

done-opts :
    (start end : ℤ) (success : Bool) (l : Limiter) → (done start end success l).opts ≡ l.opts
unfolding done
done-opts start end success l = ground arith

handle-opts : (l : Limiter) (e : Event) → (handle l e).opts ≡ l.opts
unfolding handle done
handle-opts l (finished start end success) = done-opts start end success l
handle-opts l ticked = (on_tick_keeps l).0
handle-opts l e = ground arith

handle-IsAverage :
    (lo hi s : ℕ)
    → s ≤ 1024
    → hi < 2 ^ 53
    → (l : Limiter) (e : Event) → l.opts.smoothing ≡ pos s
    → IsAverage lo hi l.rtt_ema
    → TakesBetween lo hi e
    → IsAverage lo hi (handle l e).rtt_ema
unfolding handle
handle-IsAverage lo hi s hs small l (finished (pos start) (pos end) success) e h t =
    done-IsAverage lo hi s hs small l start end success e t.0 t.1 t.2 h
handle-IsAverage lo hi s hs small l ticked e h t = rw (on_tick_keeps l).1 h
handle-IsAverage lo hi s hs small l ev e h t = ground arith

-- The moving average, after any calls and adjustments: if every reported round trip takes between
-- `lo` and `hi` nanoseconds, the average is 0 (nothing measured yet) or between `lo` and `hi`. The
-- smoothing factor is at most 1024 and `hi` is below 2 ^ 53, 104 days.
pub run-IsAverage :
    (lo hi s : ℕ) (es : List Event) (l : Limiter)
    → s ≤ 1024
    → hi < 2 ^ 53
    → l.opts.smoothing ≡ pos s
    → IsAverage lo hi l.rtt_ema
    → IsTimed lo hi es
    → IsAverage lo hi (run l es).rtt_ema
unfolding run
run-IsAverage lo hi s [] l hs small e h timed = h
run-IsAverage lo hi s (ev ∷ es) l hs small e h timed =
    run-IsAverage lo hi s es (handle l ev) hs small
      (ap (λ (o : Options). o.smoothing) (handle-opts l ev) ∙ e)
      (handle-IsAverage lo hi s hs small l ev e h timed.0) timed.1

handle-rtt_min : (l : Limiter) (e : Event) → (handle l e).rtt_min ≤ℤ l.rtt_min
unfolding handle done
handle-rtt_min l ticked =
    omega (arith, ap pos_part (on_tick_keeps l).2, ap neg_part (on_tick_keeps l).2)
handle-rtt_min l e = ground arith

run-le-rtt_min : (es : List Event) (l : Limiter) → (run l es).rtt_min ≤ℤ l.rtt_min
unfolding run
run-le-rtt_min [] l = omega arith
run-le-rtt_min (e ∷ es) l = omega (arith, run-le-rtt_min es (handle l e), handle-rtt_min l e)

done-rtt_min :
    (l : Limiter) (start end : ℤ)
    → pos 1 ≤ℤ l.inflight
    → (done start end true l).rtt_min ≤ℤ sub64 end start
unfolding done
done-rtt_min l start end h = ground arith

-- The least round trip never rises again: every reported one, of a request that held a permit and
-- succeeded, bounds it for ever after, whatever is called and measured later.
pub run-rtt_min :
    (l : Limiter) (start end : ℤ) (es : List Event)
    → pos 1 ≤ℤ l.inflight
    → (run (done start end true l) es).rtt_min ≤ℤ sub64 end start
run-rtt_min l start end es h =
    omega (arith, done-rtt_min l start end h, run-le-rtt_min es (done start end true l))

factor_le : (m e : ℕ) → m < e → m * 1024 / e ≤ 1024
factor_le m e h = grind arith

div_mul_le : (a b : ℕ) → a / b * b ≤ a
div_mul_le a b = grind arith

-- The limit that congestion asks for, before it is held between the bounds.
abbrev pub shrunk : ℕ → ℕ → ℕ → ℕ
shrunk probe min_rtt ema_rtt = probe * (min_rtt * 1024 / ema_rtt) / 1024

module _ (limit gain m e : ℕ) where
  abbrev pub probe : ℕ
  probe = limit * gain / 1024

  target_limit_exact :
      limit * gain < 2 ^ 53
      → e < 2 ^ 53
      → m < e
      → target_limit (pos limit) (pos gain) (pos m) (pos e) ≡ pos (shrunk probe m e)
  unfolding target_limit quot64
  target_limit_exact fits small lt =
      rw
        (
          mul64_pos limit gain (omega arith),
          sub64_le e m (omega arith) (omega arith),
          mul64_pos m 1024 (omega arith),
          mul64_pos probe (m * 1024 / e)
              (omega (arith, mul_mono (m * 1024 / e) 1024 probe (factor_le m e lt))),
        )
        (ground arith)

  -- With `min_rtt` below `ema_rtt`, the limit that is aimed at is at most the gain's, and smaller in
  -- proportion: `target * ema_rtt ≤ limit * gain / 1024 * min_rtt`.
  pub congestion :
      limit * gain < 2 ^ 53
      → e < 2 ^ 53
      → m < e
      → (t : ℕ) × (target_limit (pos limit) (pos gain) (pos m) (pos e) ≡ pos t)
        × (t ≤ probe)
        × (t * e ≤ probe * m)
  congestion fits small lt =
      let factor = m * 1024 / e in
      (
        shrunk probe m e,
        target_limit_exact fits small lt,
        omega (arith, mul_mono factor 1024 probe (factor_le m e lt)),
        omega (
          arith,
          mul_mono (shrunk probe m e * 1024) (probe * factor) e (div_mul_le (probe * factor) 1024),
          mul_mono (factor * e) (m * 1024) probe (div_mul_le (m * 1024) e),
        ),
      )

  -- Without a queue the gain alone moves the limit.
  pub no_congestion :
      limit * gain < 2 ^ 53
      → m < 2 ^ 53
      → e ≤ m
      → target_limit (pos limit) (pos gain) (pos m) (pos e) ≡ pos (limit * gain / 1024)
  unfolding target_limit ◌-ℤ◌ int64
  no_congestion fits small le = rw (mul64_pos limit gain (omega arith)) (ground arith)
