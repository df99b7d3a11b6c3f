-- ===== src/Breaker/Concurrent/SingleFlight.antt =====
-- breaker/breaker.go: of the goroutines that find the circuit half-open, one at a time probes.
use resili.Prelude.{ℕ, ◌≡◌, ◌≢◌, ◌⊎◌, refl, Bool, true, false, arith, update, inl, inr}
use resili.Breaker.State.{
  CircuitBreaker, state_half_open, count_request, count_failure, trip, admit, settle,
}
use resili.Breaker.Concurrent.{
  Pc, probing, passing, Move, see_closed, count, succeed, fail, under, over, lock_trip, see_other,
  reject, take_probe, pass, end_probe, end_pass, System, Step, pick, Reach, start, later,
}

abbrev pub is_probing : Pc → Bool
is_probing probing = true
is_probing _ = false

abbrev pub is_passing : Pc → Bool
is_passing passing = true
is_passing _ = false

-- Either no goroutine probes and the flag is down, or one alone does, the flag is up and the circuit
-- half-open. None that passed the lock while the state was closed is still running.
abbrev Alone : System → Type 0
Alone s =
    ((s.cb.half_open_in_flight ≡ false) × ((i : ℕ) → is_probing (s.pc i) ≡ false))
    ⊎ ((i : ℕ) × (is_probing (s.pc i) ≡ true)
        × (s.cb.half_open_in_flight ≡ true)
        × (s.cb.state ≡ state_half_open)
        × ((j : ℕ) → i ≢ j → is_probing (s.pc j) ≡ false))

-- What a move does to the flag and the state, by the two ends of the move.
record Effect (cb c : CircuitBreaker) (p q : Pc) : Type 0 where
  holds :
      ((is_probing p ≡ false)
        × (is_probing q ≡ false)
        × (c.half_open_in_flight ≡ cb.half_open_in_flight)
        × ((c.state ≡ cb.state) ⊎ (cb.state ≢ state_half_open)))
      ⊎ ((is_probing p ≡ false)
          × (is_probing q ≡ true)
          × (cb.half_open_in_flight ≡ false)
          × (c.half_open_in_flight ≡ true)
          × (c.state ≡ state_half_open))
      ⊎ ((is_probing p ≡ true)
          × (is_probing q ≡ false)
          × ((cb.state ≡ state_half_open) → c.half_open_in_flight ≡ false))

Move-Effect :
    {cb c : CircuitBreaker} {p q : Pc}
    → Move false cb p c q
    → is_passing p ≡ false
    → Effect cb c p q × (is_passing q ≡ false)
unfolding count_request count_failure trip admit settle
Move-Effect (see_closed e) h = ground arith
Move-Effect (count now e) h = ground arith
Move-Effect (succeed err e) h = ground arith
Move-Effect (fail err e g) h = ground arith
Move-Effect (under e) h = ground arith
Move-Effect (over e) h = ground arith
Move-Effect (lock_trip now e) h = ground arith
Move-Effect (see_other e) h = ground arith
Move-Effect (reject now e) h = ground arith
Move-Effect (take_probe now e) h = ground arith
Move-Effect (pass now l e) h = cc
Move-Effect (end_probe err now₁ now₂ e) h = ground arith
Move-Effect (end_pass err now₁ now₂ e) h = cc

module _ (s : System) (i : ℕ) (c : CircuitBreaker) (q : Pc) (f : Effect s.cb c (s.pc i) q) where
  abbrev moved : System
  moved = record { cb = c; pc = update s.pc i q }

  flag_down :
      s.cb.half_open_in_flight ≡ false → ((j : ℕ) → is_probing (s.pc j) ≡ false) → Alone moved
  flag_down flag calm = elim f.holds [
    | inl (pp, qq, same, keeps) ↦ inl (ground arith, λ j. ground (arith, calm j))
    | inr (inl (pp, qq, down, up, half)) ↦
        inr (i, ground arith, up, half, λ j ne. ground (arith, calm j))
    | inr (inr (pp, qq, lowers)) ↦ absurd (ground (arith, calm i))
  ]

  flag_up :
      (k : ℕ)
      → is_probing (s.pc k) ≡ true
      → s.cb.half_open_in_flight ≡ true
      → s.cb.state ≡ state_half_open
      → ((j : ℕ) → k ≢ j → is_probing (s.pc j) ≡ false)
      → Alone moved
  flag_up k probes flag half others = elim f.holds [
    | inl (pp, qq, same, keeps) ↦
        inr (k, ground arith, ground arith, ground arith, λ j ne. ground (arith, others j ne))
    | inr (inl (pp, qq, down, up, half')) ↦ absurd (ground arith)
    | inr (inr (pp, qq, lowers)) ↦ inl (lowers half, λ j. ground (arith, others j, others i))
  ]

record Inv (s : System) : Type 0 where
  alone : Alone s
  none_passing : (i : ℕ) → is_passing (s.pc i) ≡ false

Step-Inv : {s t : System} → Step false s t → Inv s → Inv t
Step-Inv {s} (pick i {c} {p} mv) inv = record {
  alone = elim inv.alone [
    | inl (flag, calm) ↦ flag_down s i c p e.0 flag calm
    | inr (k, probes, flag, half, others) ↦ flag_up s i c p e.0 k probes flag half others
  ];
  none_passing = λ j. ground (arith, e.1, inv.none_passing j);
}
  where
    e : Effect s.cb c (s.pc i) p × (is_passing p ≡ false)
    e = Move-Effect mv (inv.none_passing i)

Reach-Inv :
    (cb : CircuitBreaker) {s : System} → Reach false cb s → cb.half_open_in_flight ≡ false → Inv s
Reach-Inv cb start h = record { alone = inl (h, λ _. refl); none_passing = λ _. refl }
Reach-Inv cb (later r st) h = Step-Inv st (Reach-Inv cb r h)

-- In every interleaving in which no goroutine finds the circuit closed when it gets the lock of the
-- slow path, two goroutines never probe together; and while one probes the flag is up and the circuit
-- stays half-open.
pub single_probe :
    (cb : CircuitBreaker) {s : System} (i j : ℕ)
    → Reach false cb s
    → cb.half_open_in_flight ≡ false
    → is_probing (s.pc i) ≡ true
    → is_probing (s.pc j) ≡ true
    → (i ≡ j) × (s.cb.half_open_in_flight ≡ true) × (s.cb.state ≡ state_half_open)
single_probe cb {s} i j r h pi pj = elim (Reach-Inv cb r h).alone [
  | inl (flag, calm) ↦ absurd (ground (arith, calm i))
  | inr (k, probes, flag, half, others) ↦ ground (arith, others i, others j)
]

-- Under the same condition the flag never stays up by itself: while it is up some goroutine probes,
-- so the circuit is never locked in the half-open state with nobody to decide it.
pub flag_has_probe :
    (cb : CircuitBreaker) {s : System}
    → Reach false cb s
    → cb.half_open_in_flight ≡ false
    → s.cb.half_open_in_flight ≡ true
    → (i : ℕ) × (is_probing (s.pc i) ≡ true)
flag_has_probe cb {s} r h up = elim (Reach-Inv cb r h).alone [
  | inl (flag, calm) ↦ absurd (ground arith)
  | inr (k, probes, flag, half, others) ↦ (k, probes)
]
