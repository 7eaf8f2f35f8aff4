-- ===== src/Mutex/Examples.antt =====
-- A mutex of src/EFiberMutex.cpp in the hands of one fiber, with another in its wait queue.
use cxx_fiber.Prelude.{◌-◌, ◌≤◌, ◌≡◌, ◌↔◌, refl, true, List, []}
use cxx_fiber.Fifo.{list_fifo}
use cxx_fiber.Blocker
use cxx_fiber.Blocker.{Waiter, fiber, resumed}
use cxx_fiber.Mutex.{create, lock, park, unlock, is_locked}
use cxx_fiber.Mutex.Exclusion.{
  Held, locks, parks, Reach, start, later, after, free, mutual_exclusion, unlock_hands_over,
}

abbrev taken : Held (List Waiter)
taken = after 0 (lock (free list_fifo).mutex)

abbrev contended : Held (List Waiter)
contended = after taken.holders (park list_fifo 7 taken.mutex)

contended_reached : Reach list_fifo contended
contended_reached = later (later start locks) (parks 7)

mutual_exclusion_example :
    (contended.holders ≤ 1) × ((is_locked contended.mutex ≡ true) ↔ (contended.holders ≡ 1))
mutual_exclusion_example = mutual_exclusion list_fifo contended_reached

unlock_hands_over_example :
    let k = after (contended.holders - 1) (unlock list_fifo contended.mutex) in
    ((unlock list_fifo contended.mutex).1 ≡ resumed (fiber 7))
    × (k.mutex.wait_queue ≡ [])
    × (k.holders ≡ 1)
    × (k.mutex.wakeup ≡ 0)
unfolding create lock park Blocker.create Blocker.wait_check Blocker.swap_out
unlock_hands_over_example = unlock_hands_over list_fifo (fiber 7) [] contended_reached refl refl
