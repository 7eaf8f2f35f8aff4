-- ===== src/Hooker/Io.antt =====
-- `comm_io_on_fiber` of src/EHooker.cpp (the template of C++11), and the calls that are made of it:
-- accept, read, write and their kin.
mod Examples
pub mod Errors
pub mod Rounds
pub mod Accepted
use cxx_fiber.Prelude.Int.{ℤ, pos, negsuc, is_negative}
use cxx_fiber.Prelude.{
  ℕ, zero, suc, Bool, true, false, not, ◌&&◌, ◌||◌, List, [], ◌∷◌, ◌==◌, if◌then◌else◌,
}
use cxx_fiber.IoWaiter.{EventLoop}
use cxx_fiber.FileContext.{Os, FileContext, without_nonblock}
use cxx_fiber.Hooker
use cxx_fiber.Hooker.{
  Host, Original, M, ◌>>=◌, ◌>>◌, return, return_with, fail, unfinished, original, skips,
  is_minus_one, get_file_context, e_again, e_timed_out,
}
use cxx_fiber.Hooker.Poll.{Pollfd, poll, poll_in, poll_out, has_out, is_zero}

-- The calls with an event of their own.
pub data SysCall : Type 0 where
  accepts reads readvs recvs recvfroms recvmsgs preads freads : SysCall
  writes writevs sends sendtos sendmsgs pwrites fwrites : SysCall

-- The event that a call waits for.
unfoldable pub event_of : SysCall → ℕ
event_of accepts = poll_in
event_of reads = poll_in
event_of readvs = poll_in
event_of recvs = poll_in
event_of recvfroms = poll_in
event_of recvmsgs = poll_in
event_of preads = poll_in
event_of freads = poll_in
event_of _ = poll_out

unfoldable pub is_accept : SysCall → Bool
is_accept accepts = true
is_accept _ = false

abbrev pub is_one : ℤ → Bool
is_one (pos n) = n == 1
is_one (negsuc n) = false

-- The milliseconds to wait; without a timeout -1, which is for ever.
abbrev pub or_forever : ℤ → ℤ
or_forever t = if is_zero t then negsuc 0 else t

unfoldable pub timeout_of : ℕ → FileContext → ℤ
timeout_of event c = or_forever (if event == poll_in then c.recv_timeout else c.send_timeout)

abbrev pub pollfd : ℕ → ℕ → Pollfd
pollfd fd event = record { fd = pos fd; events = event; revents = 0 }

module _ {P S : Type 0} (L : EventLoop P) (others : Host P S → Host P S)
    (poll_f : List Pollfd → ℤ → Original S (ℤ × List Pollfd)) where
  -- One call after `poll` has found the file ready, and what to do with its answer.
  unfoldable pub again : Bool → ℤ → M P S ℤ → M P S ℤ
  again e r k = if is_minus_one r && e then k else return r

  -- What the result of `poll` asks for: the call, the end by timeout, or the end by an error.
  unfoldable pub answer : Original S ℤ → M P S ℤ → ℤ → M P S ℤ
  unfolding again
  answer fn k r =
      if is_one r
      then (original fn >>= λ x h. again (h.errno == e_again) x k h)
      else if is_zero r
      then return_with e_timed_out (negsuc 0)
      else return r

  -- The loop from RETRY on.
  unfoldable pub retry : ℕ → Original S ℤ → ℕ → ℕ → ℤ → M P S ℤ
  unfolding answer
  retry zero fn event fd millis = fail unfinished
  retry (suc n) fn event fd millis = poll L others poll_f (pollfd fd event ∷ []) millis >>= λ a.
      answer fn (retry n fn event fd millis) a.0

module _ {P S : Type 0} (os : Os S) where
  -- An accepted socket goes back to the blocking mode.
  unfoldable pub settle : Bool → ℤ → M P S ℤ
  settle true (pos socket) h = (
    record h {
      kernel = os.set_flags h.kernel socket (without_nonblock (os.get_flags h.kernel socket));
    },
    Hooker.returned (pos socket),
  )
  settle true (negsuc n) h = return (negsuc n) h
  settle false r h = return r h

module _ {P S : Type 0} (L : EventLoop P) (others : Host P S → Host P S)
    (poll_f : List Pollfd → ℤ → Original S (ℤ × List Pollfd)) (os : Os S)
    (align_up : ℕ → ℕ → ℕ) where
  unfoldable pub wait_io : ℕ → Original S ℤ → SysCall → ℕ → FileContext → M P S ℤ
  unfolding retry timeout_of event_of is_accept settle
  wait_io n fn call fd c =
      retry L others poll_f n fn (event_of call) fd (timeout_of (event_of call) c)
      >>= settle os (is_accept call)

  -- The call on a file that the program has left in the blocking mode.
  unfoldable pub blocking_io : ℕ → Original S ℤ → SysCall → ℕ → FileContext → M P S ℤ
  unfolding wait_io
  blocking_io n fn call fd c =
      if has_out (event_of call)
      then (original fn >>= λ r.
          if is_negative r then wait_io n fn call fd c else settle os (is_accept call) r)
      else wait_io n fn call fd c

  -- `fn` is the original call with its arguments.
  unfoldable pub comm_io : ℕ → Original S ℤ → SysCall → ℕ → M P S ℤ
  unfolding blocking_io
  comm_io n fn call fd h =
      if skips h || not (os.is_stream_file h.kernel fd)
      then original fn h
      else (get_file_context os align_up fd >>= λ c.
            if c.user_non_blocked then original fn else blocking_io n fn call fd c)
          h
