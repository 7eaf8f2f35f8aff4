-- ===== src/Scheduler/Loop/Examples.antt =====
-- Runs of the loops of src/EFiberScheduler.cpp with two threads and two fibers.
use cxx_fiber.Prelude.{
  ℕ, ◌<◌, zero, suc, ◌⊎◌, arith, ◌≡◌, refl, true, false, some, none, List, [], ◌∷◌, ◌==◌,
  if◌then◌else◌,
}
use cxx_fiber.Fifo.{list_fifo}
use cxx_fiber.Fiber
use cxx_fiber.Blocker
use cxx_fiber.Blocker.{Waiter, Blocker}
use cxx_fiber.Runtime.{World, put_fiber, terminated, runnable, new, Action, yields, tries}
use cxx_fiber.Scheduler.{bind, dispatch, create, schedule}
use cxx_fiber.Scheduler.Steps.{at_head, System, enters, here, next}
use cxx_fiber.Scheduler.Closed.{IsClosed}
use cxx_fiber.Scheduler.Invariant.{IsPlaced, create-IsPlaced}
use cxx_fiber.Scheduler.Loop.{
  schedule_before, schedule_after, fiber_before, fiber_after, Program, Thread, thrown, returned,
  join_with_thread_bind, join, loop, turn_bound, enter, leave_bound, signal_others, attend_bound,
  serve_bound, tell, report, switch_to, process, take,
}
use cxx_fiber.Scheduler.Loop.Reached.{At, Conforms}
use cxx_fiber.Scheduler.Loop.Brief.{Lined, work}
use cxx_fiber.Scheduler.Loop.Worker.{worker_program, worker_program-Conforms}
use cxx_fiber.Scheduler.Loop.Completes.{
  outside, join_with_thread_bind-reached, join_with_thread_bind-completes,
}
use cxx_fiber.Scheduler.Loop.Ends.{join_with_thread_bind-returns, join-returns}
use cxx_fiber.Scheduler.Loop.Alone.{join-completes}
use cxx_fiber.Scheduler.Loop.Phases.{ToldInOrder, join-phases}
use cxx_fiber.Scheduler.Loop.Interrupts.{join_with_thread_bind-interrupted}

-- The fibers 0 and 1 stand in the queue of thread 1.
abbrev world : World (List Waiter)
world = record {
  fibers = λ f. record (Fiber.create []) { state = runnable };
  queues = λ q. if q == 1 then 0 ∷ 1 ∷ [] else [];
  blockers = λ b. Blocker.create list_fifo 0 1;
  total = 2;
  stubs = true;
  threads = 2;
  balance_index = 0;
  balance = none;
  hung = λ t. false;
  waiters = λ t. 0;
  signals = λ t. 0;
  notified = 0;
  faulted = false;
}

abbrev thread : Thread (List Waiter)
thread = record {
  shared = record { world = world; interrupted = false };
  local = none;
  io_waiter = none;
  phases = [];
  context = true;
  cleared = false;
}

-- Fiber 0 interrupts the scheduler, and both end.
abbrev program : Program (List Waiter)
program = record {
  callback = some (λ t p s. s);
  body = λ t f s. record {
    world = put_fiber f (record (s.world.fibers f) { state = terminated }) s.world;
    interrupted = if f == 0 then true else s.interrupted;
  };
  events = λ t timeout s. s;
}

bound_run :
    (join_with_thread_bind list_fifo program 9 1 thread).0.phases
    ≡ schedule_before ∷ fiber_before 0 ∷ fiber_after 0 ∷ schedule_after ∷ []
unfolding join_with_thread_bind loop turn_bound enter leave_bound attend_bound serve_bound tell
    report switch_to process take bind dispatch signal_others Fiber.create
bound_run = refl

join-phases_example :
    ToldInOrder list_fifo program (λ t p s. s) refl thread (join list_fifo program 3 thread)
    × ToldInOrder list_fifo program
        (λ t p s. s)
        refl
        thread
        (join_with_thread_bind list_fifo program 3 1 thread)
join-phases_example = join-phases list_fifo program (λ t p s. s) refl 3 1 thread

join_with_thread_bind-interrupted_example : join_with_thread_bind list_fifo program 9 1 thread ≡ (
  leave_bound program 1 (loop (turn_bound list_fifo program 1) 1 (enter program 1 thread)).0,
  thrown,
)
unfolding loop turn_bound enter attend_bound serve_bound tell report switch_to process take
join_with_thread_bind-interrupted_example =
    join_with_thread_bind-interrupted list_fifo program 1 7 1 thread (λ t p s e. e) refl refl

-- One thread and two fibers: one yields and tries a blocker, the other returns at once.
abbrev bodies : ℕ → List Action
bodies zero = yields ∷ tries 3 ∷ []
bodies (suc f) = []

abbrev closed : ℕ → Blocker (List Waiter)
closed b = Blocker.create list_fifo 0 1

abbrev made : System (List Waiter)
made = record { world = create bodies closed 1; control = λ t. at_head }

abbrev ready : World (List Waiter)
ready = schedule false none 1 (schedule false none 0 made.world)

abbrev comer : Thread (List Waiter)
comer = record thread { shared = record { world = ready; interrupted = false } }

abbrev worker : Program (List Waiter)
worker = worker_program list_fifo (λ t timeout w. [])

ready-At : At list_fifo 2 made 0 at_head comer.shared
unfolding create schedule
ready-At = (
  λ t. at_head,
  refl,
  next (next here (enters 0 (omega arith) refl (omega arith)))
      (enters 1 (omega arith) refl (omega arith)),
)

bodies-IsClosed : (f : ℕ) → IsClosed (bodies f)
bodies-IsClosed zero = (tt, (tt, tt))
bodies-IsClosed (suc f) = tt

worker-Conforms : Conforms list_fifo 2 made worker
unfolding create Fiber.create
worker-Conforms = worker_program-Conforms list_fifo 2 made (λ t timeout w. []) bodies-IsClosed

join_with_thread_bind-reached_example :
    let (j', e) = join_with_thread_bind list_fifo worker 9 0 comer in
    At list_fifo 2 made 0 (outside e) j'.shared
unfolding create
join_with_thread_bind-reached_example =
    join_with_thread_bind-reached list_fifo 2 made worker worker-Conforms 0 (omega arith) 9 comer
      ready-At

lined : Lined 0 comer.shared.world (0 ∷ 1 ∷ [])
unfolding create schedule Fiber.create
lined = (
  refl,
  refl,
  refl,
  (((λ e. omega arith), tt), (tt, tt)),
  ((refl, (tt, (tt, tt))), ((refl, tt), tt)),
)

soon : work comer.shared.world (0 ∷ 1 ∷ []) < 5
unfolding create schedule Fiber.create
soon = omega arith

join_with_thread_bind-returns_example :
    (join_with_thread_bind list_fifo worker 5 0 comer).1 ≡ returned
join_with_thread_bind-returns_example =
    join_with_thread_bind-returns list_fifo (λ t timeout w. []) 0 5 (0 ∷ 1 ∷ []) comer refl lined
      soon

made-IsPlaced : IsPlaced list_fifo 2 made
unfolding Blocker.create
made-IsPlaced = create-IsPlaced list_fifo 2 bodies closed 1 (omega arith) (λ b. refl)

ends : (join_with_thread_bind list_fifo worker 5 0 comer).1 ≡ returned
ends =
    join_with_thread_bind-returns list_fifo (λ t timeout w. []) 0 5 (0 ∷ 1 ∷ []) comer refl lined
      soon

join_with_thread_bind-completes_example :
    let w = (join_with_thread_bind list_fifo worker 5 0 comer).0.shared.world in
    (((w.fibers 0).state ≡ new) ⊎ ((w.fibers 0).state ≡ terminated)) × (w.faulted ≡ false)
unfolding worker_program create
join_with_thread_bind-completes_example =
    join_with_thread_bind-completes list_fifo 2 made worker worker-Conforms 0 (omega arith)
      (λ call e. absurd (ground arith)) made-IsPlaced 5 comer ready-At ends 0 (omega arith)

join-returns_example : (join list_fifo worker 5 comer).1 ≡ returned
join-returns_example =
    join-returns list_fifo (λ t timeout w. []) 5 (0 ∷ 1 ∷ []) comer refl lined soon

alone_ends : (join list_fifo worker 5 comer).1 ≡ returned
alone_ends = join-returns list_fifo (λ t timeout w. []) 5 (0 ∷ 1 ∷ []) comer refl lined soon

join-completes_example :
    let w = (join list_fifo worker 5 comer).0.shared.world in
    (((w.fibers 0).state ≡ new) ⊎ ((w.fibers 0).state ≡ terminated)) × (w.faulted ≡ false)
unfolding worker_program create
join-completes_example =
    join-completes list_fifo 2 made worker worker-Conforms made-IsPlaced refl
      (λ call e. absurd (ground arith)) 5 comer ready-At alone_ends 0 (omega arith)
