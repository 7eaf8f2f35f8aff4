-- ===== src/Hooker/OldIo.antt =====
-- src/EHooker.cpp: call_fn and comm_io_on_fiber for compilers before C++11.
use cxx_fiber.Prelude.Int.{ℤ, negsuc, is_negative}
use cxx_fiber.Prelude.{
  ℕ, zero, suc, Bool, false, not, ◌||◌, ◌==◌, Option, none, some, List, [], ◌∷◌, if◌then◌else◌,
}
use cxx_fiber.IoWaiter.{EventLoop}
use cxx_fiber.FileContext.{Os}
use cxx_fiber.Hooker.{
  Host, Original, M, ◌>>=◌, return, return_with, fail, unfinished, original, skips, get_pointer,
  e_again, e_timed_out,
}
use cxx_fiber.Hooker.Poll.{Pollfd, poll, has_out, is_zero}
use cxx_fiber.Hooker.Io.{SysCall, accepts, event_of, timeout_of, pollfd, is_one, again, settle}

-- Whether an accepted socket is set back to the blocking mode: with a pointer to a context that says, at
-- that time, that the program has left the listening file in that mode.
abbrev pub resets : {P S : Type 0} → Option ℕ → Host P S → Bool
resets none h = false
resets (some a) h = not (h.files.heap a).user_non_blocked

module _ {P S : Type 0} (L : EventLoop P) (others : Host P S → Host P S)
    (poll_f : List Pollfd → ℤ → Original S (ℤ × List Pollfd)) (os : Os S)
    (align_up : ℕ → ℕ → ℕ) where
  -- `fn` is the original call with its arguments taken from the list. The case of a function that is
  -- none of the fifteen has no counterpart: SysCall has no other.
  pub call_fn : Option ℕ → Original S ℤ → SysCall → M P S ℤ
  unfolding settle
  call_fn fdctx fn accepts = original fn >>= λ r h. settle os (resets fdctx h) r h
  call_fn fdctx fn _ = original fn

  -- What the result of `poll` asks for.
  pub answer : M P S ℤ → M P S ℤ → ℤ → M P S ℤ
  unfolding again
  answer call k r =
      if is_one r
      then (call >>= λ x h. again L others poll_f (h.errno == e_again) x k h)
      else if is_zero r
      then return_with e_timed_out (negsuc 0)
      else return r

  -- The loop from RETRY on.
  pub retry : ℕ → M P S ℤ → ℕ → ℕ → ℤ → M P S ℤ
  unfolding answer
  retry zero call event fd millis = fail unfinished
  retry (suc n) call event fd millis = poll L others poll_f (pollfd fd event ∷ []) millis >>= λ a.
      answer call (retry n call event fd millis) a.0

  -- `fdctx` is the address of the context, whose timeout is read here once.
  pub wait_io : ℕ → Original S ℤ → SysCall → ℕ → ℕ → M P S ℤ
  unfolding call_fn retry timeout_of event_of
  wait_io n fn call fd fdctx h =
      retry n (call_fn (some fdctx) fn call) (event_of call) fd
        (timeout_of (event_of call) (h.files.heap fdctx)) h

  pub blocking_io : ℕ → Original S ℤ → SysCall → ℕ → ℕ → M P S ℤ
  unfolding call_fn wait_io
  blocking_io n fn call fd fdctx =
      if has_out (event_of call)
      then (call_fn (some fdctx) fn call >>= λ r.
          if is_negative r then wait_io n fn call fd fdctx else return r)
      else wait_io n fn call fd fdctx

  unfoldable pub comm_io : ℕ → Original S ℤ → SysCall → ℕ → M P S ℤ
  unfolding call_fn blocking_io
  comm_io n fn call fd h =
      if skips h || not (os.is_stream_file h.kernel fd)
      then call_fn none fn call h
      else (get_pointer os align_up fd >>= λ fdctx h1.
            if (h1.files.heap fdctx).user_non_blocked
            then call_fn none fn call h1
            else blocking_io n fn call fd fdctx h1)
          h
