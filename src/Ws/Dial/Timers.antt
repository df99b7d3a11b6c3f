-- ===== src/Ws/Dial/Timers.antt =====
-- rws/hedge.go, the pool of timers: the two functions do what those of hedge/hedge.go do.
use resili.Prelude.{ℤ, Option}
use resili.Hedge.Timers as Pooled
use resili.Hedge.Timers.{Time}

module _ (time : Time) where
  open time use {Timer}

  abbrev pub get_timer : ℤ → Option Timer → Timer
  get_timer d pooled = Pooled.get_timer time d pooled

  abbrev pub put_timer : Timer → Timer
  put_timer t = Pooled.put_timer time t
