-- ===== src/Fiber.antt =====
-- src/EFiber.cpp: how a fiber is set up, how it is resumed, and `sleep`.
mod Examples
pub mod Sleeping
use Prim.Native.Nat.{max}
use cxx_fiber.Prelude.Int.{ℤ, pos, negsuc}
use cxx_fiber.Prelude.{
  ℕ, ◌+◌, ◌*◌, Bool, true, false, not, ◌&&◌, ◌||◌, Option, none, some, List, ltb, leb, ◌==◌,
  if◌then◌else◌,
}
use cxx_fiber.Runtime.{
  State, new, runnable, blocked, waiting, terminated, Action, Fiber, World, fault, put_fiber,
  enqueue, signal,
}

-- The fields that the constructor sets.
unfoldable pub create : List Action → Fiber
create body = record {
  state = new;
  thread_index = 0;
  bound_queue = none;
  bound_thread = none;
  io_waiter = none;
  blocker = none;
  timed_out = false;
  canceled = false;
  program = body;
}

abbrev pub default_stack_size : ℕ
default_stack_size = 1024 * 1024

-- On Linux.
abbrev pub min_stack_size : ℕ
min_stack_size = 8192

unfoldable pub stack_size : ℕ → ℕ
stack_size size = max size min_stack_size

unfoldable pub cancel : Fiber → Fiber
cancel f = record f { canceled = true }

pub is_alive : Fiber → Bool
is_alive f = elim f.state [ runnable ↦ true | _ ↦ false ]

-- Reads the mark and clears it.
unfoldable pub is_wait_timeout : Fiber → Fiber × Bool
is_wait_timeout f = (record f { timed_out = false }, f.timed_out)

abbrev pub is_paused : State → Bool
is_paused waiting = true
is_paused blocked = true
is_paused _ = false

abbrev is_blocked : State → Bool
is_blocked blocked = true
is_blocked _ = false

abbrev same_thread : Option ℕ → ℕ → Bool
same_thread none t = false
same_thread (some u) t = u == t

module _ {Q : Type 0} where
  -- The signal that wakes the thread of a fiber that another thread `t` unblocks.
  notify_thread : ℕ → Fiber → World Q → World Q
  notify_thread t f w =
      if not (same_thread f.bound_thread t) && is_blocked f.state
      then elim f.io_waiter [ none ↦ fault w | some i ↦ signal i w ]
      else w

  resume : ℕ → ℕ → Fiber → World Q → World Q
  unfolding notify_thread
  resume t g f w = elim f.bound_queue [
    | none ↦ fault w
    | some q ↦
        notify_thread t f
          (enqueue q g (put_fiber g (record f { blocker = none; state = runnable }) w))
  ]

  -- `swapIn` of the fiber `g`, called in the thread `t`.
  unfoldable pub swap_in : ℕ → ℕ → World Q → World Q
  unfolding resume
  swap_in t g w = if is_paused (w.fibers g).state then resume t g (w.fibers g) w else w

-- What `sleep` does: it throws, or it asks for a timer of so many milliseconds.
pub data Sleep : Type 0 where
  illegal_argument : Sleep
  sleeps_for : ℕ → Sleep

-- `sleep(millis)`.
unfoldable pub sleep : ℤ → Sleep
sleep (pos millis) = sleeps_for millis
sleep (negsuc _) = illegal_argument

sleep_rounded : ℕ → ℕ → Sleep
unfolding sleep
sleep_rounded millis nanos =
    if ltb 999999 nanos
    then illegal_argument
    else if leb 500000 nanos || (not (nanos == 0) && millis == 0)
    then sleep (pos (millis + 1))
    else sleep (pos millis)

-- `sleep(millis, nanos)`.
pub sleep_nanos : ℤ → ℤ → Sleep
unfolding sleep_rounded
sleep_nanos (negsuc _) _ = illegal_argument
sleep_nanos (pos millis) (negsuc _) = illegal_argument
sleep_nanos (pos millis) (pos nanos) = sleep_rounded millis nanos
