-- ===== src/Prelude/Sums.antt =====
-- Weights summed over the first places of a store.
use Prim.Native.Nat.{ℕ, zero, suc, ◌+◌, ◌≤◌, ◌<◌}
use mathlib.Core.Path.{◌≡◌, refl}
use native.Mathlib.Decide.{dec_lt}
use native.Mathlib.Omega.{arith}
use cxx_fiber.Prelude.Lists.{update}

module _ {ℓ} {A : Type ℓ} (weight : A → ℕ) where
  pub sum_below : ℕ → (ℕ → A) → ℕ
  sum_below zero f = 0
  sum_below (suc n) f = sum_below n f + weight (f n)

  sum_below-update_ge :
      (n : ℕ) (f : ℕ → A) (i : ℕ) (a : A) → n ≤ i → sum_below n (update f i a) ≡ sum_below n f
  unfolding sum_below
  sum_below-update_ge zero f i a h = refl
  sum_below-update_ge (suc n) f i a h = ground (arith, sum_below-update_ge n f i a)

  -- A write at `i` replaces the weight there.
  pub sum_below-update :
      (n : ℕ) (f : ℕ → A) (i : ℕ) (a : A)
      → i < n
      → sum_below n (update f i a) + weight (f i) ≡ sum_below n f + weight a
  unfolding sum_below
  sum_below-update zero f i a h = absurd (omega arith)
  sum_below-update (suc n) f i a h = elim (dec_lt i n) [
    | yes low ↦ ground (arith, sum_below-update n f i a low)
    | no high ↦ ground (arith, sum_below-update_ge n f i a)
  ]

  -- A sum of zero has no positive part.
  pub sum_below-zero : (n : ℕ) (f : ℕ → A) (i : ℕ) → sum_below n f ≡ 0 → i < n → weight (f i) ≡ 0
  unfolding sum_below
  sum_below-zero zero f i e h = absurd (omega arith)
  sum_below-zero (suc n) f i e h = elim (dec_lt i n) [
    | yes low ↦ sum_below-zero n f i (omega arith) low
    | no high ↦ ground arith
  ]

  pub sum_below-eq-zero : (n : ℕ) (f : ℕ → A) → ((i : ℕ) → weight (f i) ≡ 0) → sum_below n f ≡ 0
  unfolding sum_below
  sum_below-eq-zero zero f h = refl
  sum_below-eq-zero (suc n) f h = omega (arith, sum_below-eq-zero n f h, h n)
