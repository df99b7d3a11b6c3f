-- ===== src/Environment.antt =====
-- What the packages are given: the clock, the shared objects in the state of the world, and the
-- action that a layer wraps. The world `W` is whatever the action and other goroutines may change.
pub mod Keeps
use resili.Prelude.{ℤ}
use resili.Errors.{Outcome}

-- time.Now().UnixNano() and time.Sleep. A reading may change the world: time goes on.
pub record Clock (W : Type 0) : Type 0 where
  pub now : W → ℤ × W
  pub sleep : ℤ → W → W

-- A shared object of type `S` in the world, such as the breaker that a pointer refers to.
pub record Cell (W S : Type 0) : Type 0 where
  pub get : W → S
  pub put : S → W → W

-- The interface ResultAction of breaker/, limiter/ and timeout/. `Now` and `RequestDeadline` return
-- fields of the request.
pub record Action (W R : Type 0) : Type 0 where
  pub execute : W → Outcome R × W
  pub now : ℤ
  pub request_deadline : ℤ

abbrev pub modify : {W S : Type 0} → Cell W S → (S → S) → W → W
modify c f w = c.put (f (c.get w)) w
