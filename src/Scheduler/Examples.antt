-- ===== src/Scheduler/Examples.antt =====
-- Two threads of src/EFiberScheduler.cpp: fiber 0 waits on a blocker and fiber 1 wakes it.
use cxx_fiber.Prelude.Int.{negsuc}
use cxx_fiber.Prelude.{
  ℕ, ◌-◌, ◌^◌, zero, suc, ◌+◌, ◌≤◌, ◌≡◌, refl, inr, false, none, some, List, [], ◌∷◌, arith, update,
}
use cxx_fiber.Prelude.Sums.{sum_below}
use cxx_fiber.Fifo.{list_fifo}
use cxx_fiber.Blocker
use cxx_fiber.Blocker.{Waiter, fiber, Blocker}
use cxx_fiber.Fiber
use cxx_fiber.Runtime.{Fiber}
use cxx_fiber.Runtime.{blocked, terminated, Action, waits, wakes, World, put_fiber}
use cxx_fiber.Scheduler.{
  round_robin, create, schedule, spread, place_in, by_balance, bind, dispatch,
}
use cxx_fiber.Scheduler.Steps.{
  at_head, taken, running, exiting, System, polls, binds, returns, dispatches, enters, Reach, here,
  next,
}
use cxx_fiber.Scheduler.Places.{count, count_waiters, count_held, alive, exits_now}
use cxx_fiber.Scheduler.Invariant.{IsPlaced, create-IsPlaced, one_place, census_holds}
use cxx_fiber.Scheduler.Setup.{max_event_set_size}
use cxx_fiber.Scheduler.Joining.{join, join-distributes}

abbrev bodies : ℕ → List Action
bodies zero = waits 3 ∷ []
bodies (suc f) = wakes 3 ∷ []

abbrev closed : ℕ → Blocker (List Waiter)
closed _ = Blocker.create list_fifo 0 1

abbrev idle : System (List Waiter)
idle = record { world = create bodies closed 2; control = λ _. at_head }

idle-IsPlaced : IsPlaced list_fifo 2 idle
unfolding Blocker.create
idle-IsPlaced = create-IsPlaced list_fifo 2 bodies closed 2 (omega arith) (λ b. refl)

-- Fiber 0 is scheduled, in the queue of thread 0.
abbrev begun : System (List Waiter)
begun = record idle { world = schedule false none 0 idle.world }

begun_reached : Reach list_fifo 2 idle begun
unfolding create
begun_reached = next here (enters 0 (omega arith) refl (omega arith))

-- Thread 0 takes it, and then runs it.
abbrev picked : System (List Waiter)
picked = record {
  world = record (begun.world) { queues = update begun.queues 0 [] };
  control = update begun.control 0 (taken 0);
}

abbrev entered : System (List Waiter)
entered = record { world = bind 0 0 picked.world; control = update picked.control 0 (running 0) }

entered_reached : Reach list_fifo 2 idle entered
unfolding create schedule spread place_in by_balance
entered_reached =
    next (next begun_reached (polls 0 0 [] (omega arith) refl refl)) (binds 0 0 (omega arith) refl)

one_place_example :
    count 0 (entered.queues 0)
      + count 0 (entered.queues 1)
      + count_waiters 0 (entered.blockers 3).wait_queue
      + count_waiters 0 (entered.blockers 4).wait_queue
      + count_held 0 (entered.control 0)
      + count_held 0 (entered.control 1)
    ≤ 1
one_place_example =
    one_place list_fifo 2 idle-IsPlaced entered_reached 0 0 1 3 4 0 1 (omega arith) (omega arith)
      (omega arith)

census_holds_example :
    (entered.total
      ≡ sum_below (λ (a : Fiber). alive a.state) 2 entered.fibers
        + sum_below exits_now entered.threads entered.control)
    × (entered.faulted ≡ false)
census_holds_example = census_holds list_fifo 2 idle-IsPlaced entered_reached

-- One thread and one fiber, which returns at once.
abbrev lone : System (List Waiter)
lone = record { world = create (λ _. []) closed 1; control = λ _. at_head }

lone-IsPlaced : IsPlaced list_fifo 1 lone
unfolding Blocker.create
lone-IsPlaced = create-IsPlaced list_fifo 1 (λ _. []) closed 1 (omega arith) (λ b. refl)

abbrev lone_begun : System (List Waiter)
lone_begun = record lone { world = schedule false none 0 lone.world }

abbrev lone_picked : System (List Waiter)
lone_picked = record {
  world = record (lone_begun.world) { queues = update lone_begun.queues 0 [] };
  control = update lone_begun.control 0 (taken 0);
}

abbrev lone_entered : System (List Waiter)
lone_entered = record {
  world = bind 0 0 lone_picked.world;
  control = update lone_picked.control 0 (running 0);
}

abbrev lone_returned : System (List Waiter)
lone_returned = record {
  world = put_fiber 0 (record (lone_entered.fibers 0) { state = terminated }) lone_entered.world;
  control = update lone_entered.control 0 (exiting 0);
}

abbrev lone_ended : System (List Waiter)
lone_ended = record {
  world = dispatch list_fifo 0 0 lone_returned.world;
  control = update lone_returned.control 0 at_head;
}

lone_ended_reached : Reach list_fifo 1 lone lone_ended
unfolding create schedule bind
lone_ended_reached =
    next
      (next
        (next
          (next (next here (enters 0 (omega arith) refl (omega arith)))
            (polls 0 0 [] (omega arith) refl refl))
          (binds 0 0 (omega arith) refl))
        (returns 0 0 (omega arith) refl refl))
      (dispatches 0 0 (omega arith) (inr refl))

-- Fiber 0 is blocked on blocker 3, where a permit has come in.
abbrev late : World (List Waiter)
late = record (create bodies (λ _. Blocker.create list_fifo 1 1) 2) {
  fibers = λ f. record (Fiber.create (bodies f)) { state = blocked; blocker = some 3 };
}

-- Five fibers are scheduled before three threads join.
abbrev loaded : World (List Waiter)
loaded = record (create bodies closed 1) { queues = λ q. 4 ∷ 0 ∷ 3 ∷ 1 ∷ 2 ∷ [] }

join-distributes_example :
    (v : World (List Waiter)) × (join 3 loaded ≡ some v)
    × (sum_below (count 3) 3 v.queues ≡ 1)
    × (v.faulted ≡ false)
unfolding create
join-distributes_example = join-distributes 1 3 loaded tt (omega arith)

-- RLIM_INFINITY of macOS, the largest long, is no negative number: the size is -1.
unlimited : max_event_set_size (some (2 ^ 63 - 1)) ≡ negsuc 0
unfolding max_event_set_size
unlimited = refl

-- After 2^31 fibers the index of the round robin is negative.
wrapped : round_robin (2 ^ 31) 3 ≡ none
unfolding round_robin
wrapped = refl
