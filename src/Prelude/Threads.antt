-- ===== src/Prelude/Threads.antt =====
-- The program counters of goroutines, one for each index, the change of one of them, and the number
-- of those that satisfy something, by weights 0 and 1.
use Prim.Native.Nat.{ℕ, zero, suc, ◌+◌, ◌*◌, ◌≤◌, ◌<◌}
use mathlib.Core.Path.{◌≡◌, refl, ap}
use mathlib.Core.Logic.{ite}
use native.Mathlib.Decide.{ℕ_discrete}
use native.Mathlib.Omega.{arith}
use resili.Prelude.Tests.{ltb, lt→ltb, if◌then◌else◌}

abbrev pub update {ℓ} : {A : Type ℓ} → (ℕ → A) → ℕ → A → ℕ → A
update pcs k pc i = ite (ℕ_discrete k i) pc (pcs i)

module _ {ℓ} {A : Type ℓ} (weight : A → ℕ) where
  -- The weights of the goroutines below `n`, added up.
  pub weigh : ℕ → (ℕ → A) → ℕ
  weigh zero pcs = 0
  weigh (suc n) pcs = weight (pcs n) + weigh n pcs

  -- What a goroutine at index `i` adds to that.
  abbrev share : ℕ → ℕ → A → ℕ
  share n i a = if ltb i n then weight a else 0

  weigh-share :
      (pcs : ℕ → A) (i : ℕ) (a : A) (n : ℕ)
      → share n i (pcs i) + weigh n (update pcs i a) ≡ share n i a + weigh n pcs
  unfolding weigh
  weigh-share pcs i a zero = ground arith
  weigh-share pcs i a (suc n) = ground (arith, weigh-share pcs i a n)

  share-le-weigh : (pcs : ℕ → A) (i n : ℕ) → share n i (pcs i) ≤ weigh n pcs
  unfolding weigh
  share-le-weigh pcs i zero = ground arith
  share-le-weigh pcs i (suc n) = ground (arith, share-le-weigh pcs i n)

  pub weigh-update :
      (pcs : ℕ → A) {i n : ℕ} (a : A)
      → i < n
      → weigh n (update pcs i a) + weight (pcs i) ≡ weigh n pcs + weight a
  weigh-update pcs {i} {n} a h = ground (arith, weigh-share pcs i a n, lt→ltb i n h)

  pub weight-le-weigh : (pcs : ℕ → A) {i n : ℕ} → i < n → weight (pcs i) ≤ weigh n pcs
  weight-le-weigh pcs {i} {n} h = ground (arith, share-le-weigh pcs i n, lt→ltb i n h)

  pub weigh-all : (n : ℕ) (a : A) → weight a ≡ 0 → weigh n (λ _. a) ≡ 0
  unfolding weigh
  weigh-all zero a h = refl
  weigh-all (suc n) a h = omega (arith, h, weigh-all n a h)

  pub weigh-le : (pcs : ℕ → A) (n b : ℕ) → ((a : A) → weight a ≤ b) → weigh n pcs ≤ b * n
  unfolding weigh
  weigh-le pcs zero b h = ground arith
  weigh-le pcs (suc n) b h = grind (arith, h (pcs n), weigh-le pcs n b h)

  pub weigh-zero : (pcs : ℕ → A) (n : ℕ) → ((i : ℕ) → weight (pcs i) ≡ 0) → weigh n pcs ≡ 0
  unfolding weigh
  weigh-zero pcs zero h = refl
  weigh-zero pcs (suc n) h = omega (arith, h n, weigh-zero pcs n h)

  pub weigh_mono : (pcs : ℕ → A) (n m : ℕ) → n ≤ m → weigh n pcs ≤ weigh m pcs
  unfolding weigh
  weigh_mono pcs n zero h = ground arith
  weigh_mono pcs n (suc m) h = elim (ℕ_discrete n (suc m)) [
    | yes e ↦ omega (arith, ap (λ k. weigh k pcs) e)
    | no differ ↦ omega (arith, weigh_mono pcs n m (omega arith))
  ]
