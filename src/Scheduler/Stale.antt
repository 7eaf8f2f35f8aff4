-- ===== src/Scheduler/Stale.antt =====
-- src/EFiberScheduler.cpp:370, 573: a fiber that `swapOut` sends back to the run queue is still
-- marked blocked.
use cxx_fiber.Prelude.{ℕ, ◌≡◌, some, List, ◌∷◌, ◌++◌, [], arith, update}
use cxx_fiber.Fifo.{Fifo}
use cxx_fiber.Blocker.{Waiter, fiber}
use cxx_fiber.Blocker.Permits.{swap_out_permit}
use cxx_fiber.Runtime.{blocked, yields, World}
use cxx_fiber.Scheduler.{act, bind, dispatch, park}

module _ {Q : Type 0} (F : Fifo Waiter Q) where
  -- The fiber gets the one permit in `swapOut`, goes to the end of the run queue, and is switched to
  -- again; all it does then is to yield. The scheduler takes it for blocked once more: it goes into
  -- the wait queue of the blocker whose permit it has, and into no run queue.
  yield_after_permit :
      (t f b : ℕ) (w : World Q) (rest : List ℕ)
      → (w.fibers f).state ≡ blocked
      → (w.fibers f).blocker ≡ some b
      → (w.blockers b).wakeup ≡ 1
      → let w1 = dispatch F t f w in
        let v = bind t f (record w1 { queues = update w1.queues t rest }) in
        let w3 = dispatch F t f (act F t f yields v).0 in
        (w1.queues t ≡ w.queues t ++ f ∷ [])
        × (F.to_list (w3.blockers b).wait_queue
            ≡ F.to_list (w.blockers b).wait_queue ++ fiber f ∷ [])
        × (w3.queues ≡ v.queues)
  unfolding act bind dispatch park
  yield_after_permit t f b w rest st eb one = ground (arith, swap_out_permit F f (w.blockers b) one)
