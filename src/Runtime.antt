-- ===== src/Runtime.antt =====
-- The state that src/EFiber.cpp, src/EFiberBlocker.cpp, src/EIoWaiter.cpp and
-- src/EFiberScheduler.cpp share: the fibers, the run queues, the blockers and the counters.
use cxx_fiber.Prelude.{ℕ, ◌+◌, Bool, true, Option, List, [], ◌∷◌, ◌++◌, update}
use cxx_fiber.Blocker.{Blocker}

-- `EFiber::State`.
pub data State : Type 0 where
  new runnable blocked waiting terminated : State

-- What the body of a fiber calls, which is the program's user's code; its end is the return. The
-- tryWait with a time is not among the calls: a fiber that calls it stands in a wait queue and has a
-- timer at once, which World does not have. Blocker.Timed has that call, on one blocker.
pub data Action : Type 0 where
  yields : Action
  waits : (blocker : ℕ) → Action
  tries : (blocker : ℕ) → Action  -- without a time
  wakes : (blocker : ℕ) → Action
  -- `EFiber::sleep` is a timer, a pause and, when the fiber is resumed, `cancelTimer`.
  sleeps : Action
  cancels_timer : Action
  schedules : (fiber : ℕ) → Action
  -- `scheduleInheritThread`.
  schedules_here : (fiber : ℕ) → Action

-- `EFiber`, less its name, tag, stack and locals. A null pointer is `none`; a thread, its run queue
-- and its io waiter go by one number.
pub record Fiber : Type 0 where
  pub state : State
  pub thread_index : ℕ
  pub bound_queue : Option ℕ
  pub bound_thread : Option ℕ
  pub io_waiter : Option ℕ
  pub blocker : Option ℕ
  pub timed_out : Bool  -- isIoWaitTimeout
  pub canceled : Bool
  pub program : List Action  -- what its body has still to do

-- The scheduler with its stubs, and the blockers of the program.
pub record World (Q : Type 0) : Type 0 where
  pub fibers : ℕ → Fiber
  pub queues : ℕ → List ℕ  -- EFiberConcurrentQueue, by thread
  pub blockers : ℕ → Blocker Q
  pub total : ℕ  -- totalFiberCounter
  pub stubs : Bool  -- schedulerStubs is set
  pub threads : ℕ  -- threadNums
  pub balance_index : ℕ  -- an int, by its bits
  pub balance : Option (ℕ → ℕ → ℕ)  -- balanceCallback
  pub hung : ℕ → Bool  -- hungIoWaiter is set
  pub waiters : ℕ → ℕ  -- EIoWaiter::waiters
  pub signals : ℕ → ℕ  -- bytes written to the pipe of an io waiter
  pub notified : ℕ  -- how often a thread has been woken by `notify`
  pub faulted : Bool  -- a null pointer was followed, or an index was out of range

module _ {Q : Type 0} where
  abbrev pub fault : World Q → World Q
  fault w = record w { faulted = true }

  abbrev pub put_fiber : ℕ → Fiber → World Q → World Q
  put_fiber f a w = record w { fibers = update w.fibers f a }

  -- `EFiberConcurrentQueue::add`, as ConcurrentQueue.Refines shows it.
  abbrev pub enqueue : ℕ → ℕ → World Q → World Q
  enqueue q f w = record w { queues = update w.queues q (w.queues q ++ f ∷ []) }

  abbrev pub put_blocker : ℕ → Blocker Q → World Q → World Q
  put_blocker b a w = record w { blockers = update w.blockers b a }

  -- `EIoWaiter::signal`.
  abbrev pub signal : ℕ → World Q → World Q
  signal i w = record w { signals = update w.signals i (w.signals i + 1) }
