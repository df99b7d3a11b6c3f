-- ===== src/Grpc/Client/Failing.antt =====
-- rgrpc/client.go: a client with a circuit breaker, whose calls fail. The chain has no classifier,
-- so that the breaker sees the errors of the calls.
use resili.Prelude.{
  ℕ, suc, ◌+◌, ◌^◌, ◌≤◌, ◌<◌, ◌≡◌, sym, ap, ◌∙◌, ℤ, pos, List, [], ◌∷◌, Option, none, some, arith,
  length, sub64, Bool, ◌<ℤ◌,
}
use mathlib.Core.Path.{subst}
use resili.Errors.{Err, circuit_open}
use resili.Breaker.State.{BreakerOption, new_breaker, state_open, admit}
use resili.Breaker.Execute.World.{World, call, world_clock, breaker_cell}
use resili.Breaker.Execute.Failing.{Failing, FailsIn, call-Failing, new_breaker-Failing}
use resili.Breaker.Execute.Recovery.{open_rejects}
use resili.Grpc.{Request, new_breaker_middleware}
use resili.Grpc.Client.{Pipeline, new_unary_client_interceptor}

-- The world is that of the breaker: its clock, and the number of calls made.
module _ {X C : Type 0} (zero : Request X C World) (ctx : X) (args : C) where
  abbrev pub pipeline : Pipeline X C World
  pipeline = record {
    timeout = none;
    retry = none;
    hedge = none;
    limiter = none;
    circuit_breaker = some (new_breaker_middleware world_clock zero breaker_cell);
  }

  -- A call that ends with `err`.
  abbrev pub rpc : Option Err → World → Option Err × World
  rpc err =
      new_unary_client_interceptor world_clock pipeline ctx args
        (λ _ _ w. (err, record w { executed = suc w.executed }))

  unfoldable pub rpcs : List (Option Err) → World → World
  rpcs [] w = w
  rpcs (err ∷ errs) w = rpcs errs (rpc err w).1

  abbrev entered : World → World
  entered w = record w { reads = suc w.reads }

  -- To the breaker it is one call, at the time that the interceptor has read.
  rpc-call :
      (err : Option Err) (w : World)
      → rpc err w ≡ call (record { now = w.clock w.reads; err = err }) (entered w)
  unfolding new_unary_client_interceptor new_breaker_middleware call resili.Breaker.Execute.execute
      admit
  rpc-call err w = ground arith

  -- Errors that the breaker counts, each at a time within the window; a call reads the clock once.
  abbrev pub AllFailFrom : ℤ → ℤ → (Option Err → Bool) → (ℕ → ℤ) → ℕ → List (Option Err) → Type 0
  AllFailFrom began duration classify times k [] = Unit
  AllFailFrom began duration classify times k (err ∷ errs) =
      FailsIn began duration classify (record { now = times k; err = err })
      × AllFailFrom began duration classify times (suc k) errs

  rpc-Failing :
      (m n t : ℕ) (began duration : ℤ) (classify : Option Err → Bool) (err : Option Err) (w : World)
      → n < 2 ^ 52
      → t ≤ 1024
      → FailsIn began duration classify (record { now = w.clock w.reads; err = err })
      → Failing m n t began duration classify w.cb
      → let w' = (rpc err w).1 in
        (suc n < m
          → Failing m (suc n) t began duration classify w'.cb
            × (w'.reads ≡ suc w.reads)
            × (w'.clock ≡ w.clock)
            × (w'.executed ≡ suc w.executed))
        × (suc n ≡ m
            → (w'.cb.state ≡ state_open)
              × (w'.cb.last_fail_time ≡ w.clock (suc w.reads))
              × (w'.reads ≡ suc (suc w.reads))
              × (w'.clock ≡ w.clock)
              × (w'.executed ≡ suc w.executed))
  rpc-Failing m n t began duration classify err w small rate f q =
      subst
        (λ (r : Option Err × World).
          (suc n < m
            → Failing m (suc n) t began duration classify r.1.cb
              × (r.1.reads ≡ suc w.reads)
              × (r.1.clock ≡ w.clock)
              × (r.1.executed ≡ suc w.executed))
          × (suc n ≡ m
              → (r.1.cb.state ≡ state_open)
                × (r.1.cb.last_fail_time ≡ w.clock (suc w.reads))
                × (r.1.reads ≡ suc (suc w.reads))
                × (r.1.clock ≡ w.clock)
                × (r.1.executed ≡ suc w.executed)))
        (sym (rpc-call err w))
        (call-Failing m n t began duration classify small rate
          (record { now = w.clock w.reads; err = err }) (entered w) f q)

  rpcs-Failing :
      (m n t : ℕ) (began duration : ℤ) (classify : Option Err → Bool) (err : Option Err)
      (errs : List (Option Err)) (w : World)
      → m < 2 ^ 52
      → t ≤ 1024
      → n + suc (length errs) ≡ m
      → AllFailFrom began duration classify w.clock w.reads (err ∷ errs)
      → Failing m n t began duration classify w.cb
      → let w' = rpcs (err ∷ errs) w in
        (w'.cb.state ≡ state_open)
        × (w'.cb.last_fail_time ≡ w.clock (w.reads + suc (length errs)))
        × (w'.reads ≡ w.reads + suc (suc (length errs)))
        × (w'.clock ≡ w.clock)
        × (w'.executed ≡ w.executed + suc (length errs))
  unfolding rpcs
  rpcs-Failing m n t began duration classify err [] w small rate e h q = ground (
    arith,
    (rpc-Failing m n t began duration classify err w (omega arith) rate h.0 q).1 (omega arith),
  )
  rpcs-Failing m n t began duration classify err (next ∷ errs) w small rate e h q =
      let w₁ = (rpc err w).1 in
      let (q₁, reads, clock, more) =
        (rpc-Failing m n t began duration classify err w (omega arith) rate h.0 q).0
          (omega arith) in
      let later : AllFailFrom began duration classify w₁.clock (suc w.reads) (next ∷ errs) =
        subst
          (λ (times : ℕ → ℤ). AllFailFrom began duration classify times (suc w.reads) (next ∷ errs))
          (sym clock) h.1 in
      let (opens, fail, reads', clock', more') =
        rpcs-Failing m (suc n) t began duration classify next errs w₁ small rate (omega arith)
          (subst (λ (k : ℕ). AllFailFrom began duration classify w₁.clock k (next ∷ errs))
            (sym reads) later)
          q₁ in
      let index : w₁.reads + suc (length errs) ≡ w.reads + suc (suc (length errs)) = omega arith in
      (
        opens,
        fail ∙ ap w₁.clock index ∙ ap (λ (f : ℕ → ℤ). f (w.reads + suc (suc (length errs)))) clock,
        omega arith,
        clock' ∙ clock,
        omega arith,
      )

  -- For the interceptor of a pipeline with a circuit breaker and nothing else, where the breaker is
  -- new: as many calls as `minRequests`, each starting within the first window and ending with an
  -- error that the breaker counts, open the circuit. The next call, if it comes before the timeout
  -- of the open circuit is over, is refused with ErrCircuitOpen, and the invoker is not called. The
  -- threshold lies between 0 and 1024, and `minRequests` is below 2 ^ 52.
  pub failing_rpcs_open :
      (opts : List BreakerOption) (now₁ now₂ : ℤ) (t : ℕ) (w : World) (err : Option Err)
      (errs : List (Option Err)) (next : Option Err)
      → w.cb ≡ new_breaker opts now₁ now₂
      → w.cb.error_threshold ≡ pos t
      → t ≤ 1024
      → suc (length errs) ≡ w.cb.min_requests
      → w.cb.min_requests < 2 ^ 52
      → AllFailFrom now₂ w.cb.window_duration w.cb.error_classifier w.clock w.reads (err ∷ errs)
      → sub64
          (w.clock (w.reads + suc (suc (suc (length errs)))))
          (w.clock (w.reads + suc (length errs)))
        <ℤ (rpcs (err ∷ errs) w).cb.open_timeout
      → let w' = rpcs (err ∷ errs) w in
        (w'.cb.state ≡ state_open)
        × (w'.executed ≡ w.executed + suc (length errs))
        × ((rpc next w').0 ≡ some circuit_open)
        × ((rpc next w').1.executed ≡ w'.executed)
  failing_rpcs_open opts now₁ now₂ t w err errs next e thr rate len small h early =
      (opened.0, opened.4, ap (λ r. r.0) refused, ap (λ r. r.1.executed) refused)
    where
      w' : World
      w' = rpcs (err ∷ errs) w

      opened :
          (w'.cb.state ≡ state_open)
          × (w'.cb.last_fail_time ≡ w.clock (w.reads + suc (length errs)))
          × (w'.reads ≡ w.reads + suc (suc (length errs)))
          × (w'.clock ≡ w.clock)
          × (w'.executed ≡ w.executed + suc (length errs))
      opened =
          rpcs-Failing w.cb.min_requests 0 t now₂ w.cb.window_duration w.cb.error_classifier err
            errs w small rate (omega arith) h
            (subst
              (λ cb.
                cb.error_threshold ≡ pos t
                → Failing cb.min_requests 0 t now₂ cb.window_duration cb.error_classifier cb)
              (sym e) (new_breaker-Failing opts now₁ now₂ t) thr)

      asked : w'.clock (suc w'.reads) ≡ w.clock (w.reads + suc (suc (suc (length errs))))
      asked =
          let index : suc w'.reads ≡ w.reads + suc (suc (suc (length errs))) =
            omega (arith, opened.2) in
          ap w'.clock index
          ∙ ap (λ (f : ℕ → ℤ). f (w.reads + suc (suc (suc (length errs))))) opened.3

      cool : sub64 (w'.clock (suc w'.reads)) w'.cb.last_fail_time <ℤ w'.cb.open_timeout
      cool = rw (asked, opened.1) early

      refused : rpc next w' ≡ (some circuit_open, record w' { reads = suc (suc w'.reads) })
      refused =
          rpc-call next w'
          ∙ open_rejects (record { now = w'.clock w'.reads; err = next }) (entered w') opened.0 cool
