-- ===== src/Scheduler/Events/Examples.antt =====
-- A fiber of src/EIoWaiter.cpp whose file and timer are due at once.
use cxx_fiber.Prelude.{◌+◌, ◌≡◌, refl, true, some, List, [], ◌∷◌}
use cxx_fiber.Fifo.{list_fifo}
use cxx_fiber.Blocker
use cxx_fiber.Blocker.{Waiter}
use cxx_fiber.Fiber
use cxx_fiber.Runtime.{World, waiting, runnable}
use cxx_fiber.Scheduler.{create}
use cxx_fiber.Scheduler.Places.{count}
use cxx_fiber.Scheduler.Events.{
  on_file, on_time, on_pipe, once_process_events, once_process_events-resumes,
}

abbrev world : World (List Waiter)
world = record (create (λ f. []) (λ b. Blocker.create list_fifo 0 1) 1) {
  fibers =
      λ f. record (Fiber.create []) { state = waiting; bound_queue = some 0; io_waiter = some 0 };
  signals = λ t. 40;
}

once_process_events-resumes_example :
    let v = (once_process_events 0 (λ a. some 2) (on_pipe ∷ on_file 7 ∷ on_time 8 ∷ []) world).0 in
    (count 2 (v.queues 0) ≡ count 2 (world.queues 0) + 1)
    × ((v.fibers 2).state ≡ runnable)
    × ((v.fibers 2).timed_out ≡ true)
unfolding Fiber.create
once_process_events-resumes_example =
    once_process_events-resumes 0 2 0 0 (λ a. some 2) (on_pipe ∷ on_file 7 ∷ on_time 8 ∷ []) world
      refl refl
