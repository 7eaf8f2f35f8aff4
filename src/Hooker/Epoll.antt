-- ===== src/Hooker/Epoll.antt =====
-- src/EHooker.cpp: epoll_wait.
pub mod Waits
pub mod Kevent
use cxx_fiber.Prelude.Int.{ℤ, pos, negsuc}
use cxx_fiber.Prelude.{ℕ, ◌-◌, ◌^◌, Bool, ◌||◌, List, if◌then◌else◌}
use cxx_fiber.Fiber
use cxx_fiber.IoWaiter.{
  EventLoop, IoWaiter, readable, all_events, set_file_event, del_file_event, setup_timer,
  cancel_timer,
}
use cxx_fiber.Hooker.{Host, Original, M, return_with, original, skips, with_io, pause, e_inval}
use cxx_fiber.Hooker.Poll.{is_zero, is_positive}

-- `EInteger::MAX_VALUE` for a negative timeout.
abbrev pub epoll_millis : ℤ → ℤ
epoll_millis t = if is_positive t then t else pos (2 ^ 31 - 1)

-- From the registration of a descriptor to what is left of it after the pause.
module _ {P S : Type 0} (L : EventLoop P) (others : Host P S → Host P S) where
  pub pause_on : ℕ → ℤ → Host P S → Host P S
  unfolding set_file_event setup_timer pause cancel_timer del_file_event
  pause_on epfd millis h =
      let (w, id) = setup_timer L millis (set_file_event L epfd readable h.io) in
      let h1 = pause L others (with_io w h) in
      with_io (del_file_event L (pos epfd) all_events (cancel_timer L id h1.io)) h1

-- The arrays of events are lists over E, the struct's type.
module _ {P S E : Type 0} (L : EventLoop P) (others : Host P S → Host P S)
    (epoll_wait_f : List E → ℤ → Original S (ℤ × List E)) where
  pub wait : ℕ → ℤ → Host P S → Host P S
  wait epfd timeout h = pause_on L others epfd (epoll_millis timeout) h

  pub wake : List E → M P S (ℤ × List E)
  unfolding Fiber.is_wait_timeout
  wake events h =
      let (f, late) = Fiber.is_wait_timeout h.fiber in
      let h1 = with_io (record (h.io) { fiber = f }) h in
      if late
      then return_with e_inval (negsuc 0, events) h1
      else original (epoll_wait_f events (pos 0)) h1

  pub epoll_wait : ℕ → List E → ℤ → M P S (ℤ × List E)
  unfolding wait wake
  epoll_wait epfd events timeout h =
      if skips h || is_zero timeout
      then original (epoll_wait_f events timeout) h
      else wake events (wait epfd timeout h)
