-- ===== src/Scheduler/Places.antt =====
-- Where each fiber stands: the invariant of the threads of src/EFiberScheduler.cpp.
use cxx_fiber.Prelude.{
  ℕ, ◌+◌, ◌≤◌, ◌<◌, ◌≡◌, ◌≢◌, ◌⊎◌, Bool, true, false, none, some, List, [], ◌∷◌, ◌++◌, arith, ◌==◌,
}
use cxx_fiber.Prelude.Sums.{sum_below}
use cxx_fiber.Fifo.{Fifo}
use cxx_fiber.Blocker.{Waiter, thread, fiber}
use cxx_fiber.Runtime.{
  State, new, runnable, blocked, waiting, terminated, Action, cancels_timer, Fiber,
}
use cxx_fiber.Scheduler.Steps.{Control, taken, running, leaving, exiting, System}

pub data Place : Type 0 where
  unborn dead : Place
  queued : (queue : ℕ) → Place
  held : (thread : ℕ) → Place
  parked_on : (blocker : ℕ) → Place
  napping : (thread : ℕ) → Place

abbrev one_if : Bool → ℕ
one_if true = 1
one_if false = 0

abbrev pub is_queued : ℕ → Place → ℕ
is_queued q (queued r) = one_if (q == r)
is_queued q _ = 0

abbrev pub is_held : ℕ → Place → ℕ
is_held t (held u) = one_if (t == u)
is_held t _ = 0

abbrev pub is_parked : ℕ → Place → ℕ
is_parked b (parked_on c) = one_if (b == c)
is_parked b _ = 0

-- How often a fiber stands in a run queue, in a wait queue, in the hands of a thread.
abbrev pub count : ℕ → List ℕ → ℕ
count x [] = 0
count x (y ∷ ys) = one_if (y == x) + count x ys

abbrev is_fiber : ℕ → Waiter → ℕ
is_fiber x (fiber f) = one_if (f == x)
is_fiber x thread = 0

abbrev pub count_waiters : ℕ → List Waiter → ℕ
count_waiters x [] = 0
count_waiters x (w ∷ ws) = is_fiber x w + count_waiters x ws

pub count_append : (x : ℕ) (xs ys : List ℕ) → count x (xs ++ ys) ≡ count x xs + count x ys
count_append x [] ys = omega arith
count_append x (y ∷ xs) ys = omega (arith, count_append x xs ys)

pub count_waiters_append :
    (x : ℕ) (xs ys : List Waiter)
    → count_waiters x (xs ++ ys) ≡ count_waiters x xs + count_waiters x ys
count_waiters_append x [] ys = omega arith
count_waiters_append x (w ∷ xs) ys = omega (arith, count_waiters_append x xs ys)

abbrev pub count_held : ℕ → Control → ℕ
count_held x (taken f) = one_if (f == x)
count_held x (running f) = one_if (f == x)
count_held x (leaving f) = one_if (f == x)
count_held x (exiting f) = one_if (f == x)
count_held x _ = 0

-- Runnable, blocked or waiting.
abbrev pub alive : State → ℕ
alive runnable = 1
alive blocked = 1
alive waiting = 1
alive _ = 0

abbrev pub exits_now : Control → ℕ
exits_now (exiting f) = 1
exits_now _ = 0

-- It can go on when it is switched to; a blocked one knows its blocker.
abbrev pub Ready : Fiber → Type 0
Ready a = (a.state ≡ runnable) ⊎ ((a.state ≡ blocked) × (a.blocker ≢ none))

-- The loop of the thread `t` has written itself into the fiber.
abbrev pub IsBound : ℕ → Fiber → Type 0
IsBound t a = (a.bound_queue ≢ none) × (a.io_waiter ≡ some t)

-- The body stands in `EFiber::sleep`: its timer is set, and not cancelled yet.
abbrev pub in_sleep : List Action → Bool
in_sleep (cancels_timer ∷ rest) = true
in_sleep _ = false

-- It waits for the timer that its `sleep` has set.
abbrev pub Naps : Fiber → Type 0
Naps a = (a.state ≡ waiting) × (in_sleep a.program ≡ true)

-- What is known of a fiber at its place.
abbrev pub Fits : Place → Fiber → Type 0
Fits unborn a = a.state ≡ new
Fits dead a = a.state ≡ terminated
Fits (queued q) a = Ready a
Fits (held t) a = Unit
Fits (parked_on b) a = (a.state ≡ blocked) × (a.bound_queue ≢ none) × (a.io_waiter ≢ none)
Fits (napping t) a = Naps a × (a.bound_queue ≢ none) × (a.io_waiter ≡ some t)

-- What is known of the fiber in the hands of a thread.
abbrev pub Handles : ℕ → Control → (ℕ → Fiber) → Type 0
Handles t (taken f) fs = Ready (fs f)
Handles t (running f) fs = Ready (fs f) × IsBound t (fs f)
Handles t (leaving f) fs = (Ready (fs f) ⊎ Naps (fs f)) × IsBound t (fs f)
Handles t (exiting f) fs = ((fs f).state ≡ terminated) × IsBound t (fs f)
Handles t _ fs = Unit

module _ {Q : Type 0} (F : Fifo Waiter Q) (n : ℕ) where
  pub record Inv (s : System Q) (place : ℕ → Place) : Type 0 where
    -- Every fiber stands in one place, once, and in no other.
    pub queue : (q x : ℕ) → count x (s.queues q) ≡ is_queued q (place x)
    pub wait :
        (b x : ℕ) → count_waiters x (F.to_list (s.blockers b).wait_queue) ≡ is_parked b (place x)
    pub hold : (t x : ℕ) → count_held x (s.control t) ≡ is_held t (place x)
    pub fits : (x : ℕ) → Fits (place x) (s.fibers x)
    pub handles : (t : ℕ) → Handles t (s.control t) s.fibers
    pub small : (x : ℕ) → n ≤ x → place x ≡ unborn
    -- The counter counts the fibers that have begun and that no thread has disposed of.
    pub census :
        s.total
        ≡ sum_below (λ a. alive a.state) n s.fibers + sum_below exits_now s.threads s.control
    pub sound : s.faulted ≡ false
    pub index : (x : ℕ) → (s.fibers x).thread_index < s.threads
    pub choice :
        (choose : ℕ → ℕ → ℕ) → s.balance ≡ some choose → (g : ℕ) → choose g s.threads < s.threads
