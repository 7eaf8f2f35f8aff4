-- ===== src/Hooker/Files.antt =====
-- src/EHooker.cpp: the calls on the descriptor itself: close, fcntl, ioctl, setsockopt, dup2, dup3.
mod Examples
pub mod Virtual
use cxx_fiber.Prelude.Int.{ℤ, pos, negsuc}
use cxx_fiber.Prelude.{
  ℕ, ◌+◌, Bool, true, false, not, ◌&&◌, Option, none, some, ◌==◌, update, if◌then◌else◌,
}
use cxx_fiber.FileContext.{
  Os, FileContext, Timeval, Direction, receiving, sending, has_nonblock, with_nonblock,
  without_nonblock, set_user_non_block, set_recv_timeout, set_send_timeout,
}
use cxx_fiber.FileContext.Table
use cxx_fiber.Hooker
use cxx_fiber.Hooker.{
  Host, Original, M, ◌>>=◌, ◌>>◌, return, return_with, failed, spins, faults, original, skips,
  get_pointer, e_inval,
}

-- The command of `fcntl` with its argument; an int goes by its bits.
pub data Command : Type 0 where
  f_setfl : (flags : ℕ) → Command
  f_getfl : Command
  other_command : (cmd arg : ℕ) → Command

-- The request of `ioctl`: FIONBIO with the int that its argument points to, or another.
pub data Request : Type 0 where
  fionbio : (value : ℕ) → Request
  other_request : (request arg : ℕ) → Request

-- The option of `setsockopt`.
pub data SocketOption : Type 0 where
  timeout : Direction → Timeval → SocketOption
  other_option : (level name value : ℕ) → SocketOption

unfoldable pub set_timeout : Direction → Timeval → FileContext → FileContext
set_timeout receiving tv c = set_recv_timeout tv c
set_timeout sending tv c = set_send_timeout tv c

module _ {P S : Type 0} where
  -- A write through the pointer to a context.
  unfoldable pub modify : ℕ → (FileContext → FileContext) → Host P S → Host P S
  modify a f h = record h {
    files = record (h.files) { heap = update h.files.heap a (f (h.files.heap a)) };
  }

  -- `EFiberScheduler::delFileContext`.
  unfoldable pub forget : (ℕ → ℕ → ℕ) → ℕ → M P S (Unit {0})
  unfolding Table.remove
  forget align_up fd h = elim (Table.remove align_up fd h.files) [
    | none ↦ (h, failed (if h.files.locked (Table.lock_for fd) then spins else faults))
    | some m ↦ (record h { files = m }, Hooker.returned tt)
  ]

module _ {P S : Type 0} (os : Os S) (align_up : ℕ → ℕ → ℕ) where
  -- A fiber works on a pipe or a socket.
  abbrev pub hooks : ℕ → Host P S → Bool
  hooks fd h = not (skips h) && os.is_stream_file h.kernel fd

  unfoldable pub close : Original S ℤ → ℕ → M P S ℤ
  unfolding forget
  close close_f fd h =
      if hooks fd h then (forget align_up fd >> original close_f) h else original close_f h

  -- What `fcntl` does on such a file.
  pub control : (Command → Original S ℕ) → Command → ℕ → ℕ → M P S ℕ
  unfolding modify
  control fcntl_f (f_setfl flags) fd a h =
      (modify a (set_user_non_block (has_nonblock flags)) h, Hooker.returned 0)
  control fcntl_f f_getfl fd a h =
      let flags = os.get_flags h.kernel fd in
      (
        h,
        Hooker.returned (
            if (h.files.heap a).user_non_blocked
            then with_nonblock flags
            else without_nonblock flags),
      )
  control fcntl_f (other_command cmd arg) fd a h = original (fcntl_f (other_command cmd arg)) h

  unfoldable pub fcntl : (Command → Original S ℕ) → Command → ℕ → M P S ℕ
  unfolding control
  fcntl fcntl_f cmd fd h =
      if hooks fd h
      then (get_pointer os align_up fd >>= λ a. control fcntl_f cmd fd a) h
      else original (fcntl_f cmd) h

  unfoldable pub ioctl : (Request → Original S ℕ) → Request → ℕ → M P S ℕ
  unfolding modify
  ioctl ioctl_f (fionbio value) fd h =
      if hooks fd h
      then (get_pointer os align_up fd >>= λ a g.
            (modify a (set_user_non_block (not (value == 0))) g, Hooker.returned 0))
          h
      else original (ioctl_f (fionbio value)) h
  ioctl ioctl_f (other_request request arg) fd h = original (ioctl_f (other_request request arg)) h

  unfoldable pub setsockopt : (SocketOption → Original S ℤ) → SocketOption → ℕ → M P S ℤ
  unfolding modify set_timeout
  setsockopt setsockopt_f (timeout d tv) fd h =
      if hooks fd h
      then (get_pointer os align_up fd >>= λ a g.
            original (setsockopt_f (timeout d tv)) (modify a (set_timeout d tv) g))
          h
      else original (setsockopt_f (timeout d tv)) h
  setsockopt setsockopt_f (other_option level name value) fd h =
      original (setsockopt_f (other_option level name value)) h

  unfoldable pub dup2 : Original S ℤ → ℕ → ℕ → M P S ℤ
  unfolding forget
  dup2 dup2_f oldfd newfd h =
      if oldfd == newfd
      then return (pos 0) h
      else if hooks newfd h
      then (forget align_up newfd >> original dup2_f) h
      else original dup2_f h

  unfoldable pub dup3 : Original S ℤ → ℕ → ℕ → M P S ℤ
  unfolding forget
  dup3 dup3_f oldfd newfd h =
      if oldfd == newfd
      then return_with e_inval (negsuc 0) h
      else if hooks newfd h
      then (forget align_up newfd >> original dup3_f) h
      else original dup3_f h
