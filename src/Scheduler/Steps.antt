-- ===== src/Scheduler/Steps.antt =====
-- The threads of src/EFiberScheduler.cpp as a step relation: each thread is at the head of its
-- loop, runs a fiber, or comes back from one, and any thread may make the next step. No fiber calls
-- tryWait with a time here.
use cxx_fiber.Prelude.{ℕ, ◌^◌, ◌<◌, ◌≡◌, ◌⊎◌, Bool, true, false, none, some, List, [], ◌∷◌, update}
use cxx_fiber.Fifo.{Fifo}
use cxx_fiber.Blocker.{Waiter}
use cxx_fiber.Runtime.{
  new, terminated, waiting, Action, schedules, schedules_here, World, put_fiber, signal,
}
use cxx_fiber.Scheduler.{bind, act, dispatch, fire, schedule}

-- Where a thread stands in the loop of `joinWithThreadBind`.
pub data Control : Type 0 where
  at_head : Control
  polling : Control  -- in the wait of three seconds, with `hungIoWaiter` set
  taken : (fiber : ℕ) → Control  -- off the queue, and not yet bound: events may be processed
  running : (fiber : ℕ) → Control
  leaving : (fiber : ℕ) → Control  -- the fiber has yielded
  exiting : (fiber : ℕ) → Control  -- its body has returned: it has set TERMINATED
  finished : Control

pub record System (Q : Type 0) : Type 0 where
  pub world : World Q
  pub open world use *
  pub control : ℕ → Control

-- Where a thread processes the events of its io waiter.
pub data Listens : Control → Type 0 where
  at_its_head : Listens at_head
  in_its_poll : Listens polling
  before_its_fiber : {f : ℕ} → Listens (taken f)

-- A fiber is scheduled once, fibers go by numbers below `n`, and `balanceIndex` has not wrapped.
abbrev pub Allowed : {Q : Type 0} → ℕ → World Q → Action → Type 0
Allowed n w (schedules g) = (g < n) × ((w.fibers g).state ≡ new) × (w.balance_index < 2 ^ 31)
Allowed n w (schedules_here g) = (g < n) × ((w.fibers g).state ≡ new)
Allowed n w _ = Unit

abbrev pub advance : {Q : Type 0} → ℕ → List Action → World Q → World Q
advance f rest w = put_fiber f (record (w.fibers f) { program = rest }) w

abbrev pub after : Bool → ℕ → Control
after true f = leaving f
after false f = running f

module _ {Q : Type 0} (F : Fifo Waiter Q) (n : ℕ) where
  pub data Step (s : System Q) : System Q → Type 0 where
    polls :
        (t f : ℕ) (rest : List ℕ)
        → t < s.threads
        → s.control t ≡ at_head
        → s.queues t ≡ f ∷ rest
        → Step s (record {
          world = record (s.world) { queues = update s.queues t rest };
          control = update s.control t (taken f);
        })
    binds :
        (t f : ℕ)
        → t < s.threads
        → s.control t ≡ taken f
        → Step s (record { world = bind t f s.world; control = update s.control t (running f) })
    -- Nothing to run, but some fiber is alive.
    hangs :
        (t : ℕ)
        → t < s.threads
        → s.control t ≡ at_head
        → s.queues t ≡ []
        → 0 < s.total
        → Step s (record {
          world = record (s.world) { hung = update s.hung t true };
          control = update s.control t polling;
        })
    unhangs :
        (t : ℕ)
        → t < s.threads
        → s.control t ≡ polling
        → Step s (record {
          world = record (s.world) { hung = update s.hung t false };
          control = update s.control t at_head;
        })
    -- The timer of a sleeping fiber fires while its thread's io waiter processes events.
    fires :
        (t g : ℕ)
        → t < s.threads
        → Listens (s.control t)
        → (s.fibers g).state ≡ waiting
        → (s.fibers g).io_waiter ≡ some t
        → Step s (record s { world = fire t g s.world })
    acts :
        (t f : ℕ) (a : Action) (rest : List Action)
        → t < s.threads
        → s.control t ≡ running f
        → (s.fibers f).program ≡ a ∷ rest
        → Allowed n s.world a
        → Step s (record {
          world = (act F t f a (advance f rest s.world)).0;
          control = update s.control t (after (act F t f a (advance f rest s.world)).1 f);
        })
    returns :
        (t f : ℕ)
        → t < s.threads
        → s.control t ≡ running f
        → (s.fibers f).program ≡ []
        → Step s (record {
          world = put_fiber f (record (s.fibers f) { state = terminated }) s.world;
          control = update s.control t (exiting f);
        })
    dispatches :
        (t f : ℕ)
        → t < s.threads
        → (s.control t ≡ leaving f) ⊎ (s.control t ≡ exiting f)
        → Step s (record { world = dispatch F t f s.world; control = update s.control t at_head })
    -- A thread that runs no fiber schedules one.
    enters :
        (g : ℕ)
        → g < n
        → (s.fibers g).state ≡ new
        → s.balance_index < 2 ^ 31
        → Step s (record s { world = schedule false none g s.world })
    -- The loop ends: nothing to run, and no fiber is left.
    exits :
        (t : ℕ)
        → t < s.threads
        → s.control t ≡ at_head
        → s.queues t ≡ []
        → s.total ≡ 0
        → Step s (record s { control = update s.control t finished })
    -- The loop ends because the scheduler has been interrupted, which may be at any time.
    quits :
        (t : ℕ)
        → t < s.threads
        → s.control t ≡ at_head
        → Step s (record s { control = update s.control t finished })
    -- On its way out a thread signals the io waiters of the others.
    signals :
        (t i : ℕ)
        → t < s.threads
        → s.control t ≡ finished
        → Step s (record s { world = signal i s.world })

  pub data Reach (s : System Q) : System Q → Type 0 where
    here : Reach s s
    next : {u v : System Q} → Reach s u → Step u v → Reach s v
