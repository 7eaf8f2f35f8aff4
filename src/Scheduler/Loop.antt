-- ===== src/Scheduler/Loop.antt =====
-- src/EFiberScheduler.cpp: the loop of `join()` and of `joinWithThreadBind` as one thread runs it,
-- with the schedule callback, the interruption and the clean-up at the end. What the code calls is a
-- `Program`: the callback, the fibers' bodies and the io waiters' events, which may change all that
-- the threads share.
mod Examples
pub mod Phases
pub mod Interrupts
mod Reached
pub mod Completes
pub mod Alone
pub mod Worker
pub mod Brief
pub mod Ends
use cxx_fiber.Prelude.{
  ℕ, zero, suc, ◌+◌, Bool, true, false, ◌&&◌, ◌||◌, Option, none, some, List, [], ◌∷◌, ◌++◌, ltb,
  ◌==◌, update, if◌then◌else◌,
}
use cxx_fiber.Fifo.{Fifo}
use cxx_fiber.Blocker.{Waiter}
use cxx_fiber.Runtime.{Fiber, World, put_fiber, signal}
use cxx_fiber.Scheduler.{bind, dispatch}

-- What the schedule callback is told; `SchedulePhase` with the fiber.
pub data Phase : Type 0 where
  schedule_before schedule_idle schedule_after : Phase
  fiber_before fiber_after : (fiber : ℕ) → Phase

pub record Shared (Q : Type 0) : Type 0 where
  pub world : World Q
  pub interrupted : Bool

-- The code that the loop calls, each with the thread's index.
pub record Program (Q : Type 0) : Type 0 where
  pub callback : Option (ℕ → Phase → Shared Q → Shared Q)
  pub body : ℕ → ℕ → Shared Q → Shared Q  -- a fiber, until it leaves its stack
  pub events : ℕ → (timeout : ℕ) → Shared Q → Shared Q  -- onceProcessEvents

-- A thread in its loop.
pub record Thread (Q : Type 0) : Type 0 where
  pub shared : Shared Q
  pub local : Option (Option ℕ)  -- currScheduler, with currFiber
  pub io_waiter : Option ℕ  -- currIoWaiter
  pub phases : List Phase  -- what the callback has been told
  pub context : Bool  -- the thread's original context is still there
  pub cleared : Bool  -- clearFileContexts has been called

pub data Ending : Type 0 where
  returned thrown unfinished : Ending

module _ {Q : Type 0} where
  -- The shared state, where the code below changes it.
  abbrev pub changed : (Shared Q → Shared Q) → Thread Q → Thread Q
  changed k j = record j { shared = k j.shared }

  abbrev pub in_world : (World Q → World Q) → Thread Q → Thread Q
  in_world k j = changed (λ s. record s { world = k s.world }) j

  unfoldable pub tell : Option (ℕ → Phase → Shared Q → Shared Q) → ℕ → Phase → Thread Q → Thread Q
  tell none t p j = j
  tell (some call) t p j = record j { shared = call t p j.shared; phases = j.phases ++ p ∷ [] }

  unfoldable pub report : Program Q → ℕ → Phase → Thread Q → Thread Q
  report P t p j = tell P.callback t p j

  abbrev hang_in : ℕ → Bool → World Q → World Q
  hang_in t b w = record w { hung = update w.hung t b }

  -- Nothing to run while fibers are alive: in `join()`, and in `joinWithThreadBind`.
  unfoldable pub idle : Program Q → Thread Q → Thread Q
  idle P j = report P 0 schedule_idle (changed (P.events 0 3000) j)

  unfoldable pub idle_bound : Program Q → ℕ → Thread Q → Thread Q
  idle_bound P t j =
      report P t schedule_idle
        (in_world (hang_in t false) (changed (P.events t 3000) (in_world (hang_in t true) j)))

  unfoldable pub process : Program Q → ℕ → Thread Q → Thread Q
  process P t j = if ltb 0 (j.shared.world.waiters t) then changed (P.events t 0) j else j

  -- The loop of `join()` leaves the thread's index in a fiber as it is.
  unfoldable pub bind_default : ℕ → World Q → World Q
  bind_default f w =
      put_fiber f
        (record (w.fibers f) {
          bound_queue = elim (w.fibers f).bound_queue [ none ↦ some 0 | some q ↦ some q ];
          bound_thread = some 0;
          io_waiter = some 0;
        })
        w

  unfoldable pub take : ℕ → List ℕ → World Q → World Q
  take t rest w = record w { queues = update w.queues t rest }

  unfoldable pub switch_to : Program Q → ℕ → ℕ → Thread Q → Thread Q
  switch_to P t f j =
      let j1 = report P t (fiber_before f) (record j { local = some (some f) }) in
      let j2 = report P t (fiber_after f) (changed (P.body t f) j1) in
      record j2 { local = some none }

  -- `interrupt` called where the current io waiter is `caller`. `fire_all` makes all timers of an io
  -- waiter due.
  unfoldable pub signal_all : (ℕ → World Q → World Q) → ℕ → World Q → World Q
  signal_all fire_all zero w = w
  signal_all fire_all (suc k) w = signal k (fire_all k (signal_all fire_all k w))

  unfoldable pub wake_waiters : (ℕ → World Q → World Q) → Option ℕ → World Q → World Q
  unfolding signal_all
  wake_waiters fire_all caller w =
      if ltb 1 w.threads && w.stubs
      then signal_all fire_all w.threads w
      else elim caller [ none ↦ w | some i ↦ signal i (fire_all i w) ]

  unfoldable pub interrupt : (ℕ → World Q → World Q) → Option ℕ → Shared Q → Shared Q
  unfolding wake_waiters
  interrupt fire_all caller s = record {
    world = wake_waiters fire_all caller s.world;
    interrupted = true;
  }

  unfoldable pub enter : Program Q → ℕ → Thread Q → Thread Q
  enter P t j = report P t schedule_before (record j { local = some none; io_waiter = some t })

  -- The io waiters of the other threads are signalled.
  unfoldable pub signal_others : ℕ → ℕ → World Q → World Q
  signal_others t zero w = w
  signal_others t (suc k) w = let w' = signal_others t k w in if k == t then w' else signal k w'

  -- CLEAN in `join()`, and in `joinWithThreadBind`.
  unfoldable pub leave : Program Q → Thread Q → Thread Q
  leave P j =
      report P 0 schedule_after
        (record j { io_waiter = none; local = none; cleared = true; context = false })

  unfoldable pub leave_bound : Program Q → ℕ → Thread Q → Thread Q
  leave_bound P t j = report P t schedule_after (
      in_world (λ w. signal_others t w.threads w)
        (record j { io_waiter = none; local = none; context = false }))

  unfoldable pub ending : Thread Q → Ending
  ending j = if j.shared.interrupted then thrown else returned

module _ {Q : Type 0} (F : Fifo Waiter Q) (P : Program Q) where
  unfoldable pub serve : ℕ → List ℕ → Thread Q → Thread Q
  serve f rest j =
      in_world (dispatch F 0 f)
        (switch_to P 0 f (in_world (bind_default f) (process P 0 (in_world (take 0 rest) j))))

  unfoldable pub serve_bound : ℕ → ℕ → List ℕ → Thread Q → Thread Q
  serve_bound t f rest j =
      in_world (dispatch F t f)
        (switch_to P t f (in_world (bind t f) (process P t (in_world (take t rest) j))))

  -- What the thread does with what its queue holds, and whether the loop goes on.
  unfoldable pub attend : List ℕ → Thread Q → Thread Q × Bool
  attend [] j = if ltb 0 j.shared.world.total then (idle P j, true) else (j, false)
  attend (f ∷ rest) j = (serve f rest j, true)

  unfoldable pub attend_bound : ℕ → List ℕ → Thread Q → Thread Q × Bool
  attend_bound t [] j = if ltb 0 j.shared.world.total then (idle_bound P t j, true) else (j, false)
  attend_bound t (f ∷ rest) j = (serve_bound t f rest j, true)

  -- One turn of the loop.
  unfoldable pub turn : Thread Q → Thread Q × Bool
  turn j = if j.shared.interrupted then (j, false) else attend (j.shared.world.queues 0) j

  unfoldable pub turn_bound : ℕ → Thread Q → Thread Q × Bool
  turn_bound t j =
      if j.shared.interrupted then (j, false) else attend_bound t (j.shared.world.queues t) j

-- `n` turns at most, and whether the loop has ended.
module _ {Q : Type 0} where
  unfoldable pub loop : (Thread Q → Thread Q × Bool) → ℕ → Thread Q → Thread Q × Bool
  loop once zero j = (j, false)
  loop once (suc n) j =
      let (j', more) = once j in let rest = loop once n j' in if more then rest else (j', true)

  abbrev pub close : (Thread Q → Thread Q) → Thread Q × Bool → Thread Q × Ending
  close leaves (j, false) = (j, unfinished)
  close leaves (j, true) = (leaves j, ending (leaves j))

module _ {Q : Type 0} (F : Fifo Waiter Q) (P : Program Q) where
  unfoldable pub join : ℕ → Thread Q → Thread Q × Ending
  join n j = close (leave P) (loop (turn F P) n (enter P 0 j))

  unfoldable pub join_with_thread_bind : ℕ → ℕ → Thread Q → Thread Q × Ending
  join_with_thread_bind n t j = close (leave_bound P t) (loop (turn_bound F P t) n (enter P t j))

-- How `join(threads)` ends: the exception of its own loop leaves at once; otherwise it has waited
-- for the workers, whose exceptions become one of its own.
pub data Joined : Type 0 where
  done interrupted_exception join_fail : Joined

abbrev any_thrown : List Ending → Bool
any_thrown [] = false
any_thrown (thrown ∷ es) = true
any_thrown (_ ∷ es) = any_thrown es

-- The flag says that the file contexts have been cleared.
unfoldable pub conclude : Ending → List Ending → Joined × Bool
conclude thrown workers = (interrupted_exception, false)
conclude _ workers = (if any_thrown workers then join_fail else done, true)
