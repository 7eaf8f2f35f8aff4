-- ===== src/Condition/Examples.antt =====
-- A condition of src/EFiberCondition.cpp on which the fibers 4 and 6 sleep, on the blockers 0 and 1.
use cxx_fiber.Prelude.{ℕ, ◌≡◌, refl, some, List, [], ◌∷◌, arith}
use cxx_fiber.Fifo.{list_fifo}
use cxx_fiber.Blocker
use cxx_fiber.Blocker.{Waiter, fiber, stored, resumed, no_limit}
use cxx_fiber.Condition.{Condition, await, signal}
use cxx_fiber.Condition.Signals.{AllSleep, signal-resumes}

abbrev nobody : Condition (List Waiter) (List ℕ)
nobody = record { blockers = λ _. Blocker.create list_fifo 0 no_limit; next = 0; waiters = [] }

abbrev two_sleep : Condition (List Waiter) (List ℕ)
two_sleep = (await list_fifo list_fifo 6 (await list_fifo list_fifo 4 nobody).0).0

two_sleep-AllSleep : AllSleep list_fifo list_fifo two_sleep (0 ∷ 1 ∷ []) (4 ∷ 6 ∷ [])
unfolding await Blocker.wait_fiber Blocker.swap_out Blocker.create
two_sleep-AllSleep = (refl, (refl, tt))

signal-resumes_example :
    ((signal list_fifo list_fifo two_sleep).1 ≡ some (resumed (fiber 4)))
    × ((signal list_fifo list_fifo two_sleep).0.waiters ≡ 1 ∷ [])
    × AllSleep list_fifo list_fifo (signal list_fifo list_fifo two_sleep).0 (1 ∷ []) (6 ∷ [])
unfolding await
signal-resumes_example =
    signal-resumes list_fifo list_fifo two_sleep 0 4 (1 ∷ []) (6 ∷ []) refl (omega arith)
      two_sleep-AllSleep
