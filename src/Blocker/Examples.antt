-- ===== src/Blocker/Examples.antt =====
-- Runs of the blocker of src/EFiberBlocker.cpp.
use cxx_fiber.Prelude.{◌+◌, ◌≡◌, refl, List, [], ◌∷◌, ◌++◌, arith}
use cxx_fiber.Fifo.{list_fifo}
use cxx_fiber.Blocker.{
  Waiter, thread, fiber, Blocker, Reply, passed, parked, stored, refused, resumed, create,
  wait_check, try_wait, wait_thread, swap_out, wake_up, Call, checks, tries, wakes, waits_thread,
  swaps_out, step, run,
}
use cxx_fiber.Blocker.Permits.{
  granted, accepted, total, Inv, create-Inv, run-Inv, run_balance, run_order, arrivals, departures,
}

-- A wake-up between the check of a fiber and its parking is not lost.
late_wake :
    (run list_fifo (create list_fifo 0 1) (checks ∷ wakes ∷ swaps_out 4 ∷ [])).1
    ≡ parked ∷ stored ∷ passed ∷ []
unfolding run step create wait_check swap_out wake_up
late_wake = refl

at_the_limit : (run list_fifo (create list_fifo 1 1) (wakes ∷ tries ∷ [])).1 ≡ refused ∷ passed ∷ []
unfolding run step create try_wait wake_up
at_the_limit = refl

abbrev one_of_two : Blocker (List Waiter)
one_of_two = create list_fifo 1 2

abbrev calls : List Call
calls = checks ∷ waits_thread ∷ swaps_out 4 ∷ wakes ∷ tries ∷ wakes ∷ wakes ∷ []

one_of_two-Inv : Inv list_fifo one_of_two
one_of_two-Inv = create-Inv list_fifo 1 2 (omega arith) (omega arith)

calls-run :
    (run list_fifo one_of_two calls).1
    ≡ passed ∷ parked ∷ parked ∷ resumed thread ∷ Reply.denied ∷ resumed (fiber 4) ∷ stored ∷ []
unfolding run step create wait_check try_wait wait_thread swap_out wake_up
calls-run = refl

run-Inv_example : Inv list_fifo (run list_fifo one_of_two calls).0
run-Inv_example = run-Inv list_fifo one_of_two calls one_of_two-Inv

run_balance_example :
    (run list_fifo one_of_two calls).0.wakeup + total granted (run list_fifo one_of_two calls).1
    ≡ 1 + total accepted (run list_fifo one_of_two calls).1
unfolding create
run_balance_example = run_balance list_fifo one_of_two calls one_of_two-Inv

run_order_example :
    departures (run list_fifo one_of_two calls).1 ++ (run list_fifo one_of_two calls).0.wait_queue
    ≡ arrivals calls (run list_fifo one_of_two calls).1
unfolding create
run_order_example = run_order list_fifo one_of_two calls
