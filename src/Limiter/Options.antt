-- ===== src/Limiter/Options.antt =====
-- limiter/brr_options.go: the options of the limiter, and the checks that `NewLimiter` makes of them.
-- Gains and the smoothing factor are scaled by 1024; durations are in nanoseconds.
use resili.Prelude.{ℤ, pos, List, [], ◌∷◌, leb_ℤ, ltb_ℤ, if◌then◌else◌}

pub record Options : Type 0 where
  pub gain_cycle : List ℤ
  pub initial_limit : ℤ
  pub min_limit : ℤ
  pub max_limit : ℤ
  pub smoothing : ℤ
  pub update_interval : ℤ

abbrev pub Option : Type 0
Option = Options → Options

abbrev pub default_options : Options
default_options = record {
  gain_cycle =
      pos 1280 ∷ pos 1024 ∷ pos 768 ∷ pos 1024 ∷ pos 1024 ∷ pos 1024 ∷ pos 1024 ∷ pos 1024 ∷ [];
  initial_limit = pos 50;
  min_limit = pos 1;
  max_limit = pos 10000;
  smoothing = pos 205;
  update_interval = pos 200_000_000;
}

abbrev pub with_initial_limit : ℤ → Option
with_initial_limit v o = record o { initial_limit = v }

abbrev pub with_limits : ℤ → ℤ → Option
with_limits min max o = record o { min_limit = min; max_limit = max }

abbrev pub with_gain_cycle : List ℤ → Option
with_gain_cycle gains o = record o { gain_cycle = gains }

abbrev pub with_smoothing : ℤ → Option
with_smoothing v o = record o { smoothing = v }

abbrev pub with_update_interval : ℤ → Option
with_update_interval d o = record o { update_interval = d }

unfoldable pub apply_options : List Option → Options → Options
apply_options [] o = o
apply_options (fn ∷ opts) o = apply_options opts (fn o)

abbrev pub or_default : List ℤ → List ℤ → List ℤ
or_default [] gains = gains
or_default (g ∷ gs) gains = g ∷ gs

-- The guards of `NewLimiter`, in their order: `MaxLimit` is compared with the checked `MinLimit`.
unfoldable pub guard_options : Options → Options
guard_options o =
    let min = if leb_ℤ o.min_limit (pos 0) then pos 1 else o.min_limit in
    record {
      gain_cycle = or_default o.gain_cycle default_options.gain_cycle;
      initial_limit = if leb_ℤ o.initial_limit (pos 0) then pos 1 else o.initial_limit;
      min_limit = min;
      max_limit = if ltb_ℤ o.max_limit min then min else o.max_limit;
      smoothing = o.smoothing;
      update_interval =
          if leb_ℤ o.update_interval (pos 0) then pos 200_000_000 else o.update_interval;
    }
