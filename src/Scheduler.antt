-- ===== src/Scheduler.antt =====
-- src/EFiberScheduler.cpp: `schedule`, and the loop of `join` and `joinWithThreadBind` as steps of
-- threads that interleave in any order. `join()` is the loop of thread 0 alone.
mod Examples
pub mod Joining
pub mod Steps
mod Threads
mod Closed
pub mod Places
mod Polling
pub mod Stale
pub mod Loop
pub mod Events
pub mod Setup
pub mod Invariant
mod Scheduling
mod Acting
mod Delivering
mod Waking
mod Leaving
use cxx_fiber.Prelude.{
  ℕ, ◌+◌, ◌-◌, ◌%◌, ◌^◌, ◌==◌, Bool, true, false, Option, none, some, List, [], ◌∷◌, ltb, update,
  if◌then◌else◌,
}
use cxx_fiber.Fifo.{Fifo}
use cxx_fiber.Blocker
use cxx_fiber.Blocker.{Waiter, Blocker, Reply}
use cxx_fiber.Runtime.{
  runnable, blocked, waiting, terminated, Action, yields, waits, tries, wakes, sleeps,
  cancels_timer, schedules, schedules_here, Fiber, World, fault, put_fiber, enqueue, put_blocker,
  signal,
}
use cxx_fiber.Fiber
use cxx_fiber.Fiber.{swap_in}

-- The scheduler as its constructor leaves it, with the stubs that `join(threads)` makes for more than
-- one thread; `bodies` are the fibers that the program makes.
unfoldable pub create : {Q : Type 0} → (ℕ → List Action) → (ℕ → Blocker Q) → ℕ → World Q
unfolding Fiber.create
create bodies blockers threads = record {
  fibers = λ f. Fiber.create (bodies f);
  queues = λ _. [];
  blockers = blockers;
  total = 0;
  stubs = ltb 1 threads;
  threads = threads;
  balance_index = 0;
  balance = none;
  hung = λ _. false;
  waiters = λ _. 0;
  signals = λ _. 0;
  notified = 0;
  faulted = false;
}

abbrev pub bound : ℕ → Fiber → Fiber
bound t a = record a {
  thread_index = t;
  bound_queue = elim a.bound_queue [ none ↦ some t | some q ↦ some q ];
  bound_thread = some t;
  io_waiter = some t;
}

-- `(balanceIndex++) % n` by the bits of `balanceIndex`, an int: from 2^31 on it is negative, and its
-- remainder is negative too, or 0. A negative index is none.
unfoldable pub round_robin : ℕ → ℕ → Option ℕ
round_robin bits n =
    if ltb bits (2 ^ 31) then some (bits % n) else if (2 ^ 32 - bits) % n == 0 then some 0 else none

module _ {Q : Type 0} where
  -- The callback's choice, or without one the next queue in turn.
  pub by_balance : Option (ℕ → ℕ → ℕ) → ℕ → World Q → World Q × Option ℕ
  unfolding round_robin
  by_balance none g w = (
    record w { balance_index = (w.balance_index + 1) % 2 ^ 32 },
    round_robin w.balance_index w.threads,
  )
  by_balance (some choose) g w = (w, some (choose g w.threads))

  -- The run queue for a fiber: with `ignoreBalance` that of the calling fiber's thread.
  pick_index : Bool → Option ℕ → ℕ → World Q → World Q × Option ℕ
  pick_index true none g w = (w, some 0)
  pick_index true (some active) g w = (w, some (w.fibers active).thread_index)
  pick_index false active g w = by_balance w.balance g w

  -- `schedulerStubs->getAt(index)` and what follows it.
  pub place_in : Option ℕ → ℕ → World Q → World Q
  place_in none g w = fault w
  place_in (some i) g w =
      if ltb i w.threads
      then if w.hung i then signal i (enqueue i g w) else enqueue i g w
      else fault w

  pub spread : Bool → Option ℕ → ℕ → World Q → World Q
  unfolding pick_index
  spread ignore_balance active g w =
      let (w', i) = pick_index ignore_balance active g w in place_in i g w'

  -- `scheduleIgnoreBalance`; `active` is the fiber that calls it.
  pub schedule : Bool → Option ℕ → ℕ → World Q → World Q
  schedule ignore_balance active g w =
      let w1 =
        put_fiber g (record (w.fibers g) { state = runnable }) (record w { total = w.total + 1 }) in
      if w.stubs then spread ignore_balance active g w1 else enqueue 0 g w1

  -- What the loop writes into a fiber before it switches to it.
  pub bind : ℕ → ℕ → World Q → World Q
  bind t f w = put_fiber f (bound t (w.fibers f)) w

  pub deliver : ℕ → Reply → World Q → World Q
  deliver t (Reply.resumed (Waiter.fiber g)) w = swap_in t g w
  deliver t (Reply.resumed Waiter.thread) w = record w { notified = w.notified + 1 }
  deliver t _ w = w

module _ {Q : Type 0} (F : Fifo Waiter Q) where
  -- One call of the body of the fiber `f` in the thread `t`, of those that Action has: tryWait with a
  -- time is not one of them. The result says whether the fiber has left its stack.
  pub act : ℕ → ℕ → Action → World Q → World Q × Bool
  unfolding deliver
  act t f yields w = (w, true)
  act t f (waits b) w = elim (Blocker.wait_check (w.blockers b)).1 [
    | Reply.parked ↦
        (put_fiber f (record (w.fibers f) { blocker = some b; state = blocked }) w, true)
    | _ ↦ (put_blocker b (Blocker.wait_check (w.blockers b)).0 w, false)
  ]
  act t f (tries b) w = (put_blocker b (Blocker.try_wait (w.blockers b)).0 w, false)
  act t f (wakes b) w =
      let (b', r) = Blocker.wake_up F (w.blockers b) in (deliver t r (put_blocker b b' w), false)
  act t f sleeps w =
      let a = w.fibers f in
      (
        put_fiber f
            (record a { timed_out = false; state = waiting; program = cancels_timer ∷ a.program })
            (record w { waiters = update w.waiters t (w.waiters t + 1) }),
        true,
      )
  act t f cancels_timer w = (record w { waiters = update w.waiters t (w.waiters t - 1) }, false)
  act t f (schedules g) w = (schedule false (some f) g w, false)
  act t f (schedules_here g) w = (schedule true (some f) g w, false)

  pub park : ℕ → ℕ → Option ℕ → World Q → World Q
  park t f none w = fault w
  park t f (some b) w =
      let (b', r) = Blocker.swap_out F f (w.blockers b) in
      elim r [ Reply.parked ↦ put_blocker b b' w | _ ↦ enqueue t f (put_blocker b b' w) ]

  -- The `switch` on the state of a fiber that has left its stack.
  pub dispatch : ℕ → ℕ → World Q → World Q
  unfolding park
  dispatch t f w = elim (w.fibers f).state [
    | runnable ↦ enqueue t f w
    | blocked ↦ park t f (w.fibers f).blocker w
    | terminated ↦ record w { total = w.total - 1 }
    | _ ↦ w
  ]

-- `timeEventProc`, in the io waiter of the thread `t`.
module _ {Q : Type 0} where
  pub fire : ℕ → ℕ → World Q → World Q
  fire t g w = swap_in t g (put_fiber g (record (w.fibers g) { timed_out = true }) w)
