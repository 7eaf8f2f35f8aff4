-- ===== src/Hooker/Files/Virtual.antt =====
-- src/EHooker.cpp: the modes and timeouts that a program sets are its own; the kernel's stay.
use cxx_fiber.Prelude.Int.{ℤ}
use cxx_fiber.Prelude.{
  ℕ, ◌≡◌, refl, Bool, true, false, not, ◌==◌, update_self, if◌then◌else◌, arith,
}
use cxx_fiber.FileContext.{
  Os, FileContext, Timeval, Direction, receiving, sending, has_nonblock, with_nonblock,
  without_nonblock, set_user_non_block, to_millis, set_recv_timeout, set_send_timeout,
}
use cxx_fiber.Hooker.{Host, Original, returned, original, get_pointer}
use cxx_fiber.Hooker.Chains.{>>=-step}
use cxx_fiber.Hooker.Io.{timeout_of, or_forever}
use cxx_fiber.Hooker.Poll.{poll_in}
use cxx_fiber.Hooker.Files.{
  Command, f_setfl, f_getfl, Request, fionbio, SocketOption, timeout, modify, hooks, fcntl, ioctl,
  setsockopt, set_timeout, control,
}

-- The option is about the calls with this event.
abbrev pub is_for : Direction → ℕ → Bool
is_for receiving event = event == poll_in
is_for sending event = not (event == poll_in)

same_bits :
    (b : Bool) (flags : ℕ)
    → let x = if b then with_nonblock flags else without_nonblock flags in
      (has_nonblock x ≡ b) × (without_nonblock x ≡ without_nonblock flags)
same_bits true flags = ground arith
same_bits false flags = ground arith

module _ {P S : Type 0} (os : Os S) (align_up : ℕ → ℕ → ℕ) where
  -- Once found, a context is found again, whatever is written to it.
  pub get_pointer_again :
      (fd a : ℕ) (f : FileContext → FileContext) (h h1 : Host P S)
      → get_pointer os align_up fd h ≡ (h1, returned a)
      → get_pointer os align_up fd (modify a f h1) ≡ (modify a f h1, returned a)
  unfolding get_pointer modify
  get_pointer_again fd a f h h1 e = ground arith

  -- A fiber sets the flags of a pipe or a socket by F_SETFL and asks for them by F_GETFL: it gets the
  -- mode that it has set with the other flags of the kernel, and the kernel has noticed nothing.
  fcntl-virtual :
      (fcntl_f : Command → Original S ℕ) (fd a flags : ℕ) (h h1 : Host P S)
      → hooks os align_up fd h ≡ true
      → hooks os align_up fd h1 ≡ true
      → get_pointer os align_up fd h ≡ (h1, returned a)
      → let v = (fcntl os align_up fcntl_f (f_setfl flags) fd h).0 in
        (v.kernel ≡ h1.kernel)
        × ((x : ℕ) × ((fcntl os align_up fcntl_f f_getfl fd v).1 ≡ returned x)
            × (has_nonblock x ≡ has_nonblock flags)
            × (without_nonblock x ≡ without_nonblock (os.get_flags h1.kernel fd)))
  unfolding fcntl set_user_non_block
  fcntl-virtual fcntl_f fd a flags h h1 on on1 e =
      let again = get_pointer_again fd a (set_user_non_block (has_nonblock flags)) h h1 e in
      let bits = same_bits (has_nonblock flags) (os.get_flags h1.kernel fd) in
      let v = modify a (set_user_non_block (has_nonblock flags)) h1 in
      let sets : fcntl os align_up fcntl_f (f_setfl flags) fd h ≡ (v, returned 0) = rw on (
        >>=-step (get_pointer os align_up fd) (control os align_up fcntl_f (f_setfl flags) fd) h h1
          a e) in
      let gets =
        >>=-step (get_pointer os align_up fd) (control os align_up fcntl_f f_getfl fd) v v a
          again in
      rw sets (
        refl,
        (
          if has_nonblock flags
              then with_nonblock (os.get_flags h1.kernel fd)
              else without_nonblock (os.get_flags h1.kernel fd),
          rw (on1, gets, update_self h1.files.heap a) refl,
          bits.0,
          bits.1,
        ),
      )

  -- FIONBIO by `ioctl` does what F_SETFL does with the flag.
  pub ioctl-eq-fcntl :
      (ioctl_f : Request → Original S ℕ) (fcntl_f : Command → Original S ℕ) (fd value flags : ℕ)
      (h : Host P S)
      → hooks os align_up fd h ≡ true
      → not (value == 0) ≡ has_nonblock flags
      → ioctl os align_up ioctl_f (fionbio value) fd h
        ≡ fcntl os align_up fcntl_f (f_setfl flags) fd h
  unfolding fcntl ioctl
  ioctl-eq-fcntl ioctl_f fcntl_f fd value flags h on e = rw (on, e)

  -- After SO_RCVTIMEO the calls that read wait that long, and those that write wait as before; after
  -- SO_SNDTIMEO it is the other way round. A timeout below a millisecond is none: they wait for ever.
  setsockopt-timeout_of :
      (setsockopt_f : SocketOption → Original S ℤ) (d : Direction) (tv : Timeval) (fd a event : ℕ)
      (h h1 : Host P S)
      → hooks os align_up fd h ≡ true
      → get_pointer os align_up fd h ≡ (h1, returned a)
      → timeout_of event ((setsockopt os align_up setsockopt_f (timeout d tv) fd h).0.files.heap a)
        ≡ (if is_for d event then or_forever (to_millis tv) else timeout_of event (h1.files.heap a))
  unfolding setsockopt timeout_of set_recv_timeout set_send_timeout
  setsockopt-timeout_of setsockopt_f d tv fd a event h h1 on e =
      rw
        (
          on,
          >>=-step (get_pointer os align_up fd)
              (λ b g. original (setsockopt_f (timeout d tv)) (modify b (set_timeout d tv) g)) h h1 a
              e,
          update_self h1.files.heap a,
        )
        (direction_lem d)
    where
      direction_lem :
          (d : Direction)
          → timeout_of event (set_timeout d tv (h1.files.heap a)) ≡ (
              if is_for d event
              then or_forever (to_millis tv)
              else timeout_of event (h1.files.heap a))
      direction_lem receiving = ground arith
      direction_lem sending = ground arith
