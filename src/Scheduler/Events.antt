-- ===== src/Scheduler/Events.antt =====
-- src/EIoWaiter.cpp: the callbacks by which the event loop of a thread resumes fibers. Which events
-- are due, and in which order, is up to the event loop: any list of them.
mod Examples
use cxx_fiber.Prelude.{
  ℕ, ◌+◌, ◌-◌, ◌≡◌, ◌≢◌, refl, sym, ap, ◌∙◌, Bool, true, false, ◌||◌, ◌&&◌, Option, none, some,
  List, [], ◌∷◌, ◌++◌, arith, update, update_self, update_ne, ◌==◌, length, if◌then◌else◌,
}
use cxx_fiber.Runtime.{State, runnable, waiting, Fiber, World, fault, put_fiber, enqueue}
use cxx_fiber.Fiber.{swap_in}
use cxx_fiber.Scheduler.{fire}
use cxx_fiber.Scheduler.Places.{count, count_append}

-- An event with what the event loop was given for it, the address of a box.
pub data Event : Type 0 where
  on_file : (box : ℕ) → Event
  on_time : (box : ℕ) → Event
  on_pipe : Event

-- The `sp<EFiber>` behind an address; none is memory that is not the program's.
abbrev pub Boxes : Type 0
Boxes = ℕ → Option ℕ

module _ {Q : Type 0} where
  -- `fileEventProc`.
  file_event_proc : ℕ → Option ℕ → World Q → World Q
  file_event_proc t none w = fault w
  file_event_proc t (some g) w = swap_in t g w

  -- `timeEventProc`.
  time_event_proc : ℕ → Option ℕ → World Q → World Q
  time_event_proc t none w = fault w
  time_event_proc t (some g) w = fire t g w

  -- `pipeEventProc`: reads 32 bytes at most.
  pipe_event_proc : ℕ → World Q → World Q
  pipe_event_proc t w = record w { signals = update w.signals t (w.signals t - 32) }

  pub handle : ℕ → Boxes → Event → World Q → World Q
  unfolding file_event_proc time_event_proc pipe_event_proc
  handle t boxes (on_file a) w = file_event_proc t (boxes a) w
  handle t boxes (on_time a) w = time_event_proc t (boxes a) w
  handle t boxes on_pipe w = pipe_event_proc t w

  -- `onceProcessEvents`, with how many events there were.
  pub process_events : ℕ → Boxes → List Event → World Q → World Q
  unfolding handle
  process_events t boxes [] w = w
  process_events t boxes (e ∷ es) w = process_events t boxes es (handle t boxes e w)

  pub once_process_events : ℕ → Boxes → List Event → World Q → World Q × ℕ
  unfolding process_events
  once_process_events t boxes es w = (process_events t boxes es w, length es)

abbrev is_for : ℕ → Option ℕ → Bool
is_for g none = false
is_for g (some f) = f == g

-- The event is on a file or a timer of the fiber `g`; it is on a timer of it.
abbrev resumes : Boxes → ℕ → Event → Bool
resumes boxes g (on_file a) = is_for g (boxes a)
resumes boxes g (on_time a) = is_for g (boxes a)
resumes boxes g on_pipe = false

abbrev times_out : Boxes → ℕ → Event → Bool
times_out boxes g (on_time a) = is_for g (boxes a)
times_out boxes g _ = false

abbrev pub any : (Event → Bool) → List Event → Bool
any p [] = false
any p (e ∷ es) = p e || any p es

abbrev one_if : Bool → ℕ
one_if true = 1
one_if false = 0

module _ {Q : Type 0} (t g q r : ℕ) where
  -- The fiber and its place in the queue `r`, before and after.
  abbrev Changes : World Q → World Q → Bool → Bool → Type 0
  Changes w v woken late =
      (count g (v.queues r) ≡ count g (w.queues r) + one_if (woken && q == r))
      × ((v.fibers g).timed_out ≡ ((w.fibers g).timed_out || late))
      × ((v.fibers g).bound_queue ≡ (w.fibers g).bound_queue)

  swap_in-other :
      (f : ℕ) (w : World Q)
      → f ≢ g
      → ((swap_in t f w).fibers g ≡ w.fibers g)
        × (count g ((swap_in t f w).queues r) ≡ count g (w.queues r))
  unfolding swap_in
  swap_in-other f w ne = ground (arith, count_append g (w.queues r) (f ∷ []))

  swap_in-runnable : (w : World Q) → (w.fibers g).state ≡ runnable → swap_in t g w ≡ w
  unfolding swap_in
  swap_in-runnable w e = ground (arith, e)

  swap_in-waiting :
      (w : World Q)
      → (w.fibers g).state ≡ waiting
      → (w.fibers g).bound_queue ≡ some q
      → Changes w (swap_in t g w) true false × (((swap_in t g w).fibers g).state ≡ runnable)
  unfolding swap_in
  swap_in-waiting w e b = ground (arith, e, b, count_append g (w.queues r) (g ∷ []))

  -- An event while the fiber is runnable.
  file-runnable :
      (o : Option ℕ) (w : World Q)
      → (w.fibers g).state ≡ runnable
      → let v = file_event_proc t o w in Changes w v false false × ((v.fibers g).state ≡ runnable)
  unfolding file_event_proc
  file-runnable none w e = ground (arith, e)
  file-runnable (some f) w e = ground (arith, e, swap_in-runnable w, swap_in-other f w)

  time-runnable :
      (o : Option ℕ) (w : World Q)
      → (w.fibers g).state ≡ runnable
      → let v = time_event_proc t o w in
        Changes w v false (is_for g o) × ((v.fibers g).state ≡ runnable)
  unfolding time_event_proc fire
  time-runnable none w e = ground (arith, e)
  time-runnable (some f) w e =
      let w1 = put_fiber f (record (w.fibers f) { timed_out = true }) w in
      ground (arith, e, swap_in-runnable w1, swap_in-other f w1)

  -- An event while the fiber waits.
  abbrev Woken : World Q → World Q → Bool → Bool → Type 0
  Woken w v woken late =
      Changes w v woken late × ((v.fibers g).state ≡ (if woken then runnable else waiting))

  file-Woken :
      (o : Option ℕ) (w : World Q)
      → (w.fibers g).state ≡ waiting
      → (w.fibers g).bound_queue ≡ some q
      → Woken w (file_event_proc t o w) (is_for g o) false
  unfolding file_event_proc
  file-Woken none w e b = ground (arith, e)
  file-Woken (some f) w e b = ground (arith, e, swap_in-waiting w e b, swap_in-other f w)

  time-Woken :
      (o : Option ℕ) (w : World Q)
      → (w.fibers g).state ≡ waiting
      → (w.fibers g).bound_queue ≡ some q
      → Woken w (time_event_proc t o w) (is_for g o) (is_for g o)
  unfolding time_event_proc fire
  time-Woken none w e b = ground (arith, e)
  time-Woken (some f) w e b =
      let w1 = put_fiber f (record (w.fibers f) { timed_out = true }) w in
      ground (arith, e, b, swap_in-waiting w1, swap_in-other f w1)

  module _ (boxes : Boxes) where
    handle-Woken :
        (e : Event) (w : World Q)
        → (w.fibers g).state ≡ waiting
        → (w.fibers g).bound_queue ≡ some q
        → Woken w (handle t boxes e w) (resumes boxes g e) (times_out boxes g e)
    unfolding handle pipe_event_proc
    handle-Woken (on_file a) w s b = file-Woken (boxes a) w s b
    handle-Woken (on_time a) w s b = time-Woken (boxes a) w s b
    handle-Woken on_pipe w s b = ground (arith, s)

    handle-runnable :
        (e : Event) (w : World Q)
        → (w.fibers g).state ≡ runnable
        → let v = handle t boxes e w in
          Changes w v false (times_out boxes g e) × ((v.fibers g).state ≡ runnable)
    unfolding handle pipe_event_proc
    handle-runnable (on_file a) w s = file-runnable (boxes a) w s
    handle-runnable (on_time a) w s = time-runnable (boxes a) w s
    handle-runnable on_pipe w s = ground (arith, s)

    process_events-runnable :
        (es : List Event) (w : World Q)
        → (w.fibers g).state ≡ runnable
        → let v = process_events t boxes es w in
          Changes w v false (any (times_out boxes g) es) × ((v.fibers g).state ≡ runnable)
    unfolding process_events
    process_events-runnable [] w s = ground (arith, s)
    process_events-runnable (e ∷ es) w s =
        let w1 = handle t boxes e w in
        let h = handle-runnable e w s in ground (arith, h, process_events-runnable es w1 h.1)

    process_events-Woken :
        (es : List Event) (w : World Q)
        → (w.fibers g).state ≡ waiting
        → (w.fibers g).bound_queue ≡ some q
        → Woken w
            (process_events t boxes es w)
            (any (resumes boxes g) es)
            (any (times_out boxes g) es)
    unfolding process_events
    process_events-Woken [] w s b = ground (arith, s)
    process_events-Woken (e ∷ es) w s b =
        let w1 = handle t boxes e w in
        let h = handle-Woken e w s b in
        ground (arith, h, process_events-runnable es w1, process_events-Woken es w1)

-- Whatever events one `onceProcessEvents` handles, a fiber that waits is put into the run queue that
-- it is bound to once if any event of a file or a timer is for it, and never otherwise, and into no
-- other queue; it is then runnable, and it is marked as timed out if a timer of it was among the
-- events, whichever came first.
pub once_process_events-resumes :
    {Q : Type 0} (t g q r : ℕ) (boxes : Boxes) (es : List Event) (w : World Q)
    → (w.fibers g).state ≡ waiting
    → (w.fibers g).bound_queue ≡ some q
    → let v = (once_process_events t boxes es w).0 in
      (count g (v.queues r) ≡ count g (w.queues r) + one_if (any (resumes boxes g) es && q == r))
      × ((v.fibers g).state ≡ (if any (resumes boxes g) es then runnable else waiting))
      × ((v.fibers g).timed_out ≡ ((w.fibers g).timed_out || any (times_out boxes g) es))
unfolding once_process_events
once_process_events-resumes t g q r boxes es w s b =
    let h = process_events-Woken t g q r boxes es w s b in (h.0.0, h.1, h.0.1)
