-- ===== src/Fiber/Sleeping.antt =====
-- src/EFiber.cpp: the rounding of `sleep(millis, nanos)`.
use cxx_fiber.Prelude.Int.{ℤ, pos, negsuc, is_negative}
use cxx_fiber.Prelude.{
  ℕ, ◌+◌, ◌*◌, ◌≤◌, ◌<◌, ◌≡◌, refl, true, not, ◌&&◌, ◌||◌, leb, ◌==◌, Bool-cases, ◌⊎◌, ◌↔◌, inl,
  inr, arith,
}
use cxx_fiber.Fiber.{illegal_argument, sleeps_for, sleep_nanos}

-- Arguments in range sleep for the nearest whole millisecond, a half rounded up, except that a
-- time above zero never becomes zero.
sleep_nanos-rounds :
    (millis nanos : ℕ)
    → nanos ≤ 999999
    → (r : ℕ) × (sleep_nanos (pos millis) (pos nanos) ≡ sleeps_for r)
      × (millis * 1000000 + nanos ≤ r * 1000000 + 499999)
      × ((r * 1000000 ≤ millis * 1000000 + nanos + 500000) ⊎ ((millis ≡ 0) × (r ≡ 1)))
      × ((millis + nanos ≡ 0) ⊎ (0 < r))
unfolding sleep_nanos
sleep_nanos-rounds millis nanos h =
    elim (Bool-cases (leb 500000 nanos || (not (nanos == 0) && millis == 0))) [
      | inl up ↦ (millis + 1, ground arith, ground arith, ground arith, ground arith)
      | inr down ↦ (millis, ground arith, ground arith, ground arith, ground arith)
    ]

-- It throws exactly for a negative argument, or for a million nanoseconds or more.
pub sleep_nanos-throws :
    (millis nanos : ℤ)
    → (sleep_nanos millis nanos ≡ illegal_argument) ↔ (
        (is_negative millis ≡ true)
        ⊎ (is_negative nanos ≡ true)
        ⊎ ((n : ℕ) × (nanos ≡ pos n) × (1000000 ≤ n)))
unfolding sleep_nanos
sleep_nanos-throws (negsuc m) nanos = ((λ _. inl refl), (λ _. refl))
sleep_nanos-throws (pos m) (negsuc n) = ((λ _. inr (inl refl)), (λ _. refl))
sleep_nanos-throws (pos m) (pos n) = ((λ e. inr (inr (n, refl, ground arith))), (λ e. ground arith))
