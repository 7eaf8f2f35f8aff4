-- ===== src/Fiber/Examples.antt =====
-- `sleep` of src/EFiber.cpp at concrete times.
use cxx_fiber.Prelude.Int.{pos, negsuc, is_negative}
use cxx_fiber.Prelude.{ℕ, ◌≤◌, ◌≡◌, refl, ◌⊎◌, ◌↔◌, true}
use cxx_fiber.Fiber.{illegal_argument, sleeps_for, sleep_nanos}
use cxx_fiber.Fiber.Sleeping.{sleep_nanos-throws}

half_up : sleep_nanos (pos 2) (pos 500000) ≡ sleeps_for 3
unfolding sleep_nanos
half_up = refl

sleep_nanos-throws_example : (sleep_nanos (pos 3) (negsuc 0) ≡ illegal_argument) ↔ (
    (is_negative (pos 3) ≡ true)
    ⊎ (is_negative (negsuc 0) ≡ true)
    ⊎ ((n : ℕ) × (negsuc 0 ≡ pos n) × (1000000 ≤ n)))
sleep_nanos-throws_example = sleep_nanos-throws (pos 3) (negsuc 0)
