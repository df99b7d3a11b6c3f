-- ===== src/Limiter/Samples/InOrder.antt =====
-- limiter/brr.go, observeRTT: what the goroutines measure together is what one of them would measure.
use mathlib.Core.Logic.{ite}
use resili.Prelude.{
  ℕ, ◌+◌, ◌<◌, ◌≡◌, ◌⊎◌, inl, inr, refl, ℤ, arith, ◌≤ℤ◌, List, [], ◌∷◌, ◌∙◌, if◌then◌else◌, eq_ℤ,
  update, weigh, weigh-update, weigh-all, weigh-zero, ℕ_discrete,
}
use resili.Limiter.State.{Limiter}
use resili.Limiter.Samples.{
  Pc, idle, sampling, min_read, averaging, ema_read, Rtts, Move, observe, load_min, keep_min,
  swap_min, lose_min, load_ema, swap_zero, lose_zero, swap_ema, lose_ema, System, pick, Reach,
  start, later, report, store,
}
use resili.Limiter.Samples.Moves.{measured, take_in, IsFresh, IsSecond, Moves, Move-Moves}

abbrev same : ℤ → ℤ → ℕ
same v ns = if eq_ℤ v ns then 1 else 0

-- How often a sample is there.
abbrev pub occurrences : ℤ → List ℤ → ℕ
occurrences v [] = 0
occurrences v (ns ∷ samples) = same v ns + occurrences v samples

abbrev works_on : ℤ → Pc → ℕ
works_on v idle = 0
works_on v (sampling ns) = same v ns
works_on v (min_read ns min) = same v ns
works_on v (averaging ns) = same v ns
works_on v (ema_read ns old) = same v ns

Move-occurrences :
    {smoothing : ℤ} {m m' : Rtts} {p q : Pc} (v : ℤ) (reported averaged : List ℤ)
    → Move smoothing m p m' q
    → occurrences v (report p q reported) + (occurrences v averaged + works_on v p)
      ≡ occurrences v (store p q averaged) + (occurrences v reported + works_on v q)
Move-occurrences v r a (observe ns) = ground arith
Move-occurrences v r a load_min = ground arith
Move-occurrences v r a (keep_min h) = ground arith
Move-occurrences v r a (swap_min h c) = ground arith
Move-occurrences v r a (lose_min h c) = ground arith
Move-occurrences v r a load_ema = ground arith
Move-occurrences v r a (swap_zero c) = ground arith
Move-occurrences v r a (lose_zero c) = ground arith
Move-occurrences v r a (swap_ema z c) = ground arith
Move-occurrences v r a (lose_ema z c) = ground arith

Move-measured :
    {smoothing : ℤ} {m m' : Rtts} {p q : Pc} (l : Limiter) (averaged : List ℤ)
    → Move smoothing m p m' q
    → measured (store p q averaged) l ≡ take_in p q (measured averaged l)
unfolding measured
Move-measured l a (observe ns) = refl
Move-measured l a load_min = refl
Move-measured l a (keep_min h) = refl
Move-measured l a (swap_min h c) = refl
Move-measured l a (lose_min h c) = refl
Move-measured l a load_ema = refl
Move-measured l a (swap_zero c) = refl
Move-measured l a (lose_zero c) = refl
Move-measured l a (swap_ema z c) = refl
Move-measured l a (lose_ema z c) = refl

record Inv (n : ℕ) (l : Limiter) (s : System) : Type 0 where
  counted :
      (v : ℤ) → occurrences v s.reported ≡ occurrences v s.averaged + weigh (works_on v) n s.pc
  opts : (measured s.averaged l).opts ≡ l.opts
  below : s.rtts.rtt_min ≤ℤ (measured s.averaged l).rtt_min
  average : s.rtts.rtt_ema ≡ (measured s.averaged l).rtt_ema
  fresh : (i : ℕ) → IsFresh s.rtts (s.pc i)
  -- The minimum is a sample that the second loop has stored, or is about to.
  known :
      ((measured s.averaged l).rtt_min ≤ℤ s.rtts.rtt_min)
      ⊎ ((i : ℕ) × IsSecond s.rtts.rtt_min (s.pc i))

IsFresh-le : (m m' : Rtts) (p : Pc) → m'.rtt_min ≤ℤ m.rtt_min → IsFresh m p → IsFresh m' p
IsFresh-le m m' idle h f = tt
IsFresh-le m m' (sampling ns) h f = tt
IsFresh-le m m' (min_read ns min) h f = omega arith
IsFresh-le m m' (averaging ns) h f = omega arith
IsFresh-le m m' (ema_read ns old) h f = omega arith

module _ (n : ℕ) (l : Limiter) (s : System) (i : ℕ) {m : Rtts} {p : Pc} (lt : i < n)
    (mv : Move l.opts.smoothing s.rtts (s.pc i) m p) (inv : Inv n l s) where
  abbrev before : Limiter
  before = measured s.averaged l

  moves : Moves before s.rtts (s.pc i) m p
  moves = Move-Moves before (rw inv.opts mv) (inv.fresh i) inv.below inv.average

  abbrev after : System
  after = record {
    rtts = m;
    pc = update s.pc i p;
    reported = report (s.pc i) p s.reported;
    averaged = store (s.pc i) p s.averaged;
  }

  here : (v : ℤ) → IsSecond v p → IsSecond v (update s.pc i p i)
  here v h = elim (ℕ_discrete i i) as (λ e. IsSecond v (ite e p (s.pc i))) [
    | yes e ↦ h
    | no other ↦ absurd (other refl)
  ]

  -- The goroutine `j` that is about to store the minimum has moved, or still is.
  held :
      (j : ℕ)
      → IsSecond s.rtts.rtt_min (s.pc j)
      → ((take_in (s.pc i) p before).rtt_min ≤ℤ s.rtts.rtt_min)
        ⊎ ((k : ℕ) × IsSecond s.rtts.rtt_min (update s.pc i p k))
  held j h = elim (ℕ_discrete i j) [
    | yes e ↦ elim (moves.own (rw e h)) [ inl low ↦ inl low | inr second ↦ inr (i, here _ second) ]
    | no other ↦ inr (
      j,
      elim (ℕ_discrete i j) as (λ e. IsSecond s.rtts.rtt_min (ite e p (s.pc j))) [
        | yes e ↦ absurd (other e)
        | no _ ↦ h
      ],
    )
  ]

  step-known :
      ((take_in (s.pc i) p before).rtt_min ≤ℤ m.rtt_min)
      ⊎ ((j : ℕ) × IsSecond m.rtt_min (update s.pc i p j))
  step-known = elim moves.known [
    | inl still ↦ rw still (elim inv.known [
      | inl low ↦ inl (omega (arith, moves.lower, low))
      | inr (j, second) ↦ held j second
    ])
    | inr second ↦ inr (i, here _ second)
  ]

  grown : measured (store (s.pc i) p s.averaged) l ≡ take_in (s.pc i) p before
  grown = Move-measured l s.averaged mv

  pick-Inv : Inv n l after
  pick-Inv = record {
    counted = λ v. omega (
      arith,
      inv.counted v,
      Move-occurrences v s.reported s.averaged mv,
      weigh-update (works_on v) s.pc p lt,
    );
    opts = rw grown (moves.opts ∙ inv.opts);
    below = rw grown moves.below;
    average = rw grown moves.average;
    fresh = λ j. elim (ℕ_discrete i j) as (λ e. IsFresh m (ite e p (s.pc j))) [
      | yes e ↦ moves.fresh
      | no other ↦ IsFresh-le s.rtts m (s.pc j) moves.falls (inv.fresh j)
    ];
    known = rw grown step-known;
  }

Reach-Inv : {n : ℕ} {l : Limiter} {s : System} → Reach n l s → Inv n l s
unfolding measured
Reach-Inv {n} {l} start = record {
  counted = λ v. omega (arith, weigh-all (works_on v) n idle refl);
  opts = refl;
  below = omega arith;
  average = refl;
  fresh = λ i. tt;
  known = inl (omega arith);
}
Reach-Inv {n} {l} (later {s = s} r (pick i lt mv)) = pick-Inv n l s i lt mv (Reach-Inv r)

le_antisym_ℤ : (a b : ℤ) → a ≤ℤ b → b ≤ℤ a → a ≡ b
le_antisym_ℤ a b h k = ground arith

at_rest : (p : Pc) (v : ℤ) → p ≡ idle → works_on v p ≡ 0
at_rest p v e = rw e refl

no_second : (p : Pc) (v : ℤ) → p ≡ idle → IsSecond v p → ⊥
no_second p v e h = ground arith

-- In every interleaving of the loops of observeRTT, from a limiter that nobody measures to one that
-- nobody measures any more: the least round trip and the moving average are those of the same samples
-- observed one after the other in some order, each as often as it was reported.
pub observed_in_order :
    {n : ℕ} {l : Limiter} {s : System}
    → Reach n l s
    → ((i : ℕ) → s.pc i ≡ idle)
    → (order : List ℤ) × ((v : ℤ) → occurrences v order ≡ occurrences v s.reported)
      × (s.rtts.rtt_min ≡ (measured order l).rtt_min)
      × (s.rtts.rtt_ema ≡ (measured order l).rtt_ema)
observed_in_order {n} {l} {s} r rest = (
  s.averaged,
  (λ v.
      omega
        (arith, inv.counted v, weigh-zero (works_on v) s.pc n (λ i. at_rest (s.pc i) v (rest i)))),
  elim inv.known [
    | inl low ↦ le_antisym_ℤ s.rtts.rtt_min (measured s.averaged l).rtt_min inv.below low
    | inr (i, second) ↦ absurd (no_second (s.pc i) s.rtts.rtt_min (rest i) second)
  ],
  inv.average,
)
  where
    inv : Inv n l s
    inv = Reach-Inv r
