-- ===== src/Hooker.antt =====
-- src/EHooker.cpp: the system calls that the library replaces. This file has the state that they
-- work on, how they fail and how they pause; the calls are in the modules below.
pub mod Chains
pub mod Files
pub mod Poll
pub mod Sendfile
pub mod Sleeps
pub mod Connect
pub mod Io
pub mod OldIo
pub mod Select
pub mod Epoll
pub mod Resolver
pub mod Signals
pub mod Symbols
mod Sample
mod Examples
use cxx_fiber.Prelude.Int.{ℤ, pos, negsuc}
use cxx_fiber.Prelude.{
  ℕ, ◌+◌, ◌*◌, ◌/◌, ◌%◌, ◌^◌, Bool, true, false, not, ◌||◌, Option, none, some, ◌==◌, if◌then◌else◌,
}
use cxx_fiber.Fiber
use cxx_fiber.Fiber.{Sleep}
use cxx_fiber.FileContext.{Os, FileContext}
use cxx_fiber.FileContext.Table
use cxx_fiber.FileContext.Table.{Table, Got}
use cxx_fiber.IoWaiter.{EventLoop, IoWaiter, hang, setup_timer, cancel_timer}

-- What a hooked call sees: the calling fiber with the io waiter of its thread, the kernel, and the
-- contexts of the open files.
pub record Host (P S : Type 0) : Type 0 where
  pub io : IoWaiter P
  pub open io use *
  pub kernel : S
  pub errno : ℕ
  pub files : Table
  pub scheduled : Bool  -- the thread has a current scheduler
  pub signaled : Bool  -- process_signaled: a signal handler runs
  pub interrupted : Bool  -- the scheduler is interrupted

-- What the original call does: its result with the kernel and `errno` after it.
pub record Answer (S A : Type 0) : Type 0 where
  pub kernel : S
  pub errno : ℕ
  pub value : A

-- The kernel and `errno` before it.
abbrev pub Original : Type 0 → Type 0 → Type 0
Original S A = S → ℕ → Answer S A

-- How a call can end other than by a return: by an exception, in a spin lock for ever, with a read
-- out of range, or not yet, when a loop of the model has used up its fuel.
pub data Failure : Type 0 where
  illegal_argument interrupted_exception file_not_found spins faults unfinished : Failure

pub data Outcome (A : Type 0) : Type 0 where
  returned : A → Outcome A
  failed : Failure → Outcome A

abbrev pub M : Type 0 → Type 0 → Type 0 → Type 0
M P S A = Host P S → Host P S × Outcome A

module _ {P S : Type 0} where
  infixl 5 ◌>>=◌ ◌>>◌
  abbrev pub ◌>>=◌ : {A B : Type 0} → M P S A → (A → M P S B) → M P S B
  ◌>>=◌ m f h = let (h', o) = m h in elim o [ returned a ↦ f a h' | failed e ↦ (h', failed e) ]

  abbrev pub ◌>>◌ : {A B : Type 0} → M P S A → M P S B → M P S B
  m >> k = m >>= λ _. k

  abbrev pub return : {A : Type 0} → A → M P S A
  return a h = (h, returned a)

  abbrev pub fail : {A : Type 0} → Failure → M P S A
  fail e h = (h, failed e)

  abbrev pub set_errno : ℕ → M P S (Unit {0})
  set_errno e h = (record h { errno = e }, returned tt)

  -- `errno` is written and the value returned.
  abbrev pub return_with : {A : Type 0} → ℕ → A → M P S A
  return_with e a h = (record h { errno = e }, returned a)

  abbrev pub original : {A : Type 0} → Original S A → M P S A
  original f h =
      let a = f h.kernel h.errno in
      (record h { kernel = a.kernel; errno = a.errno }, returned a.value)

  -- No fiber runs here, or a signal handler does: the original call is made.
  abbrev pub skips : Host P S → Bool
  skips h = not h.scheduled || h.signaled

  abbrev pub with_io : IoWaiter P → Host P S → Host P S
  with_io w h = record h { io = w }

-- The errors of Linux by number.
abbrev pub e_again : ℕ
e_again = 11

abbrev pub e_inval : ℕ
e_inval = 22

abbrev pub e_timed_out : ℕ
e_timed_out = 110

abbrev pub e_in_progress : ℕ
e_in_progress = 115

abbrev pub is_minus_one : ℤ → Bool
is_minus_one (negsuc n) = n == 0
is_minus_one (pos n) = false

-- `others` is what happens from the pause of the fiber to its resumption.
module _ {P S : Type 0} (L : EventLoop P) (others : Host P S → Host P S) where
  -- `EIoWaiter::swapOut`.
  pub pause : Host P S → Host P S
  unfolding hang
  pause h = others (with_io (hang h.io) h)

  doze : ℕ → Host P S → Host P S
  unfolding pause setup_timer cancel_timer
  doze millis h =
      let (w, id) = setup_timer L (pos millis) h.io in
      let h1 = pause (with_io w h) in with_io (cancel_timer L id h1.io) h1

  -- `EFiber::sleep` in a fiber.
  unfoldable pub nap : ℤ → M P S (Unit {0})
  unfolding doze Fiber.sleep
  nap millis h = elim (Fiber.sleep millis) [
    | Sleep.illegal_argument ↦ (h, failed illegal_argument)
    | Sleep.sleeps_for n ↦
        let h1 = doze n h in
        (h1, if h1.interrupted then failed interrupted_exception else returned tt)
  ]

module _ {P S : Type 0} (os : Os S) (align_up : ℕ → ℕ → ℕ) where
  -- `EFiberScheduler::getFileContext`, as an address.
  unfoldable pub get_pointer : ℕ → M P S ℕ
  unfolding Table.get
  get_pointer fd h =
      let ((s, m), r) = Table.get os align_up fd h.kernel h.files in
      let h1 = record h { kernel = s; files = m } in
      elim r [
        | Got.found a ↦ (h1, returned a)
        | Got.throws ↦ (h1, failed file_not_found)
        | Got.spins ↦ (h1, failed spins)
        | Got.faults ↦ (h1, failed faults)
      ]

  -- The context that the address points to.
  pub get_file_context : ℕ → M P S FileContext
  unfolding get_pointer
  get_file_context fd = get_pointer fd >>= λ a h. return (h.files.heap a) h
