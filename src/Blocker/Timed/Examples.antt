-- ===== src/Blocker/Timed/Examples.antt =====
-- Waits with a time limit of src/EFiberBlocker.cpp on a list of waiters.
use cxx_fiber.Prelude.Int.{pos}
use cxx_fiber.Prelude.{◌≡◌, refl, true, false, List, [], ◌∷◌, arith}
use cxx_fiber.Fifo.{list_fifo}
use cxx_fiber.Blocker.{
  Waiter, fiber, Blocker, wakes, create, run, step, swap_out, wait_check, wake_up,
}
use cxx_fiber.Blocker.Timed.{
  Removal, Waited, has, without, same, try_wait_for, resume, finish, starts_timer,
}
use cxx_fiber.Blocker.Timed.Settled.{Settled, try_wait_for-Settled}

abbrev list_removal : Removal list_fifo
list_removal = record {
  remove = λ q w. (without w q, has w q);
  to_list-remove = λ q w. refl;
  remove-has = λ q w. refl;
}

abbrev empty : Blocker (List Waiter)
empty = create list_fifo 0 1

-- The time-out comes together with a wake-up: the fiber has the permit.
abbrev late_and_woken : Waited (List Waiter)
late_and_woken = try_wait_for list_fifo list_removal (λ t. t) 4 (pos 20) [] (wakes ∷ []) true empty

woken-result : late_and_woken.result ≡ true
unfolding try_wait_for wait_check resume finish run swap_out step wake_up same create
woken-result = refl

-- No time left: there is no timer, and nobody resumes the fiber.
never_late : (try_wait_for list_fifo list_removal (λ t. t) 4 (pos 0) [] [] true empty).timer ≡ false
unfolding try_wait_for wait_check resume finish run swap_out step wake_up same create starts_timer
never_late = refl

try_wait_for-Settled_example : Settled list_fifo list_removal (fiber 4) late_and_woken
unfolding create
try_wait_for-Settled_example =
    try_wait_for-Settled list_fifo list_removal (λ t. t) 4 (pos 20) [] (wakes ∷ []) true empty refl
      tt (tt, tt) (λ e. absurd (ground (arith, e)))
