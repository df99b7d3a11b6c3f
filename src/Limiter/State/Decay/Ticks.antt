-- ===== src/Limiter/State/Decay/Ticks.antt =====
-- limiter/brr.go: where the default gain cycle takes the limit, at each turn of the control loop.
use resili.Prelude.{
  ℕ, ◌+◌, ◌-◌, ◌*◌, ◌/◌, ◌%◌, ◌^◌, ◌≤◌, ◌<◌, ◌≡◌, ◌⊎◌, inl, inr, refl, ◌∙◌, false, ℤ, pos, negsuc,
  ◌≤ℤ◌, ◌<ℤ◌, arith, dec_lt,
}
use resili.Limiter.Options.{default_options}
use resili.Limiter.State.{Limiter, clamp_limit, adjust, on_tick}
use resili.Limiter.State.Rtt.{on_tick_keeps}
use resili.Limiter.State.Decay.{
  gain_of, gain_found, target_limit_le, IsBelow, next, adjusted-IsBelow,
}

-- A limiter with the default options and a sample below `hi`, whose control loop runs.
pub record IsSampled (hi : ℕ) (l : Limiter) : Type 0 where
  pub options : l.opts ≡ default_options
  pub average_low : pos 1 ≤ℤ l.rtt_ema
  pub average_high : l.rtt_ema ≤ℤ pos hi
  pub least_low : pos 0 ≤ℤ l.rtt_min
  pub least_high : l.rtt_min <ℤ pos (2 ^ 53)
  pub alive : l.done_closed ≡ false

pub record IsDecaying (hi n : ℕ) (l : Limiter) : Type 0 where
  pub sampled : IsSampled hi l
  pub limit : ℕ
  pub is_limit : l.limit ≡ pos limit
  pub low : 1 ≤ limit
  pub high : limit ≤ 10000
  pub below : IsBelow n (l.cycle_index % 8) limit

clamped :
    (t : ℕ)
    → (c : ℕ) × (clamp_limit default_options (pos t) ≡ pos c)
      × (1 ≤ c)
      × (c ≤ 10000)
      × ((c ≤ 1) ⊎ (c ≤ t))
unfolding clamp_limit
clamped t = elim (dec_lt t 1) [
  | yes nothing ↦ (1, ground arith, omega arith, omega arith, inl (omega arith))
  | no positive ↦ elim (dec_lt 10000 t) [
    | yes over ↦ (10000, ground arith, omega arith, omega arith, inr (omega arith))
    | no in_range ↦ (t, ground arith, omega arith, omega arith, inr (omega arith))
  ]
]

-- What a tick stores.
record Ticked (l l' : Limiter) (limit : ℕ) : Type 0 where
  stored : ℕ
  is_stored : l'.limit ≡ pos stored
  low : 1 ≤ stored
  high : stored ≤ 10000
  place : l'.cycle_index % 8 ≡ next (l.cycle_index % 8)
  small : (stored ≤ 1) ⊎ (stored ≤ limit * gain_of (next (l.cycle_index % 8)) / 1024)

on_tick-alive :
    (l : Limiter)
    → l.opts ≡ default_options
    → l.done_closed ≡ false
    → (on_tick l).done_closed ≡ false
unfolding on_tick adjust
on_tick-alive l o alive =
    ground (arith, o, gain_found ((l.cycle_index + 1) % 2 ^ 32 % 8) (omega arith))

module _ (hi : ℕ) (small : hi < 2 ^ 53) where
  on_tick-Ticked :
      (l : Limiter) (limit m e : ℕ)
      → l.opts ≡ default_options
      → l.limit ≡ pos limit
      → limit ≤ 10000
      → l.rtt_min ≡ pos m
      → l.rtt_ema ≡ pos e
      → m < 2 ^ 53
      → 1 ≤ e
      → e ≤ hi
      → l.done_closed ≡ false
      → Ticked l (on_tick l) limit
  unfolding on_tick adjust
  on_tick-Ticked l limit m e o is_limit high is_m is_e small_m one below alive =
      let idx = (l.cycle_index + 1) % 2 ^ 32 in
      let p = idx % 8 in
      let (t, is_t, t_le) =
        target_limit_le limit (gain_of p) m e (ground arith) small_m (omega arith) in
      let (c, is_c, c_low, c_high, c_small) = clamped t in
      rw (o, is_limit, is_m, is_e, alive, gain_found p (omega arith), is_t)
        (record {
          stored = c;
          is_stored = ground (arith, is_c);
          low = c_low;
          high = c_high;
          place = ground arith;
          small = ground arith;
        })

  pub tick-IsDecaying :
      (n : ℕ) (l : Limiter) → IsDecaying hi n l → IsDecaying hi (n - 1) (on_tick l)
  tick-IsDecaying n l d = go l.rtt_min l.rtt_ema refl refl d.sampled
    where
      go :
          (m e : ℤ)
          → l.rtt_min ≡ m
          → l.rtt_ema ≡ e
          → IsSampled hi l
          → IsDecaying hi (n - 1) (on_tick l)
      go (pos m) (pos e) is_m is_e s =
          let (o, a, b) = on_tick_keeps l in
          let t =
            on_tick-Ticked l d.limit m e s.options d.is_limit d.high is_m is_e
              (ground (arith, s.least_high)) (ground (arith, s.average_low))
              (ground (arith, s.average_high)) s.alive in
          record {
            sampled = record {
              options = o ∙ s.options;
              average_low = rw a s.average_low;
              average_high = rw a s.average_high;
              least_low = rw b s.least_low;
              least_high = rw b s.least_high;
              alive = on_tick-alive l s.options s.alive;
            };
            limit = t.stored;
            is_limit = t.is_stored;
            low = t.low;
            high = t.high;
            below = rw t.place (
                adjusted-IsBelow n (l.cycle_index % 8) d.limit t.stored (omega arith) t.small
                  d.below);
          }
      go (negsuc m) e is_m is_e s = absurd (ground (arith, s.least_low))
      go (pos m) (negsuc e) is_m is_e s = absurd (ground (arith, s.average_low))
