-- ===== src/Hooker/Poll.antt =====
-- `poll` of src/EHooker.cpp.
pub mod Registrations
pub mod Waiting
mod Examples
pub mod Errors
pub mod Counts
pub mod Readiness
pub mod Negative
use cxx_fiber.Prelude.Int.{ℤ, pos, negsuc, is_negative}
use cxx_fiber.Prelude.{
  ℕ, ◌+◌, ◌/◌, ◌%◌, Bool, true, false, ◌&&◌, ◌||◌, List, [], ◌∷◌, ◌==◌, length, if◌then◌else◌,
}
use cxx_fiber.IoWaiter.{
  EventLoop, IoWaiter, all_events, set_file_event, del_file_event, get_file_event, setup_timer,
  cancel_timer,
}
use cxx_fiber.Fiber
use cxx_fiber.Hooker
use cxx_fiber.Hooker.{
  Host, Original, M, ◌>>=◌, ◌>>◌, return, return_with, original, skips, with_io, is_minus_one,
  pause, nap,
}

pub record Pollfd : Type 0 where
  pub fd : ℤ
  pub events : ℕ  -- short, as its bits
  pub revents : ℕ

-- POLLIN is 1 and POLLOUT is 4.
abbrev pub poll_in : ℕ
poll_in = 1

abbrev pub poll_out : ℕ
poll_out = 4

abbrev pub has_in : ℕ → Bool
has_in e = e % 2 == 1

abbrev pub has_out : ℕ → Bool
has_out e = (e / 4) % 2 == 1

-- `PollEvent2EEvent`.
abbrev pub to_mask : ℕ → ℕ
to_mask e = (if has_in e then 1 else 0) + (if has_out e then 2 else 0)

-- `EEvent2PollEvent`.
abbrev pub of_mask : ℕ → ℕ
of_mask m = (if m % 2 == 1 then poll_in else 0) + (if (m / 2) % 2 == 1 then poll_out else 0)

abbrev pub all_invalid : List Pollfd → Bool
all_invalid [] = true
all_invalid (p ∷ ps) = is_negative p.fd && all_invalid ps

abbrev pub is_positive : ℤ → Bool
is_positive (pos n) = if n == 0 then false else true
is_positive (negsuc n) = false

abbrev pub is_zero : ℤ → Bool
is_zero (pos n) = n == 0
is_zero (negsuc n) = false

module _ {P : Type 0} (L : EventLoop P) where
  unfoldable pub register_one : Pollfd → IoWaiter P → IoWaiter P
  unfolding set_file_event
  register_one p w = elim p.fd [ pos fd ↦ set_file_event L fd (to_mask p.events) w | negsuc _ ↦ w ]

  unfoldable pub register : List Pollfd → IoWaiter P → IoWaiter P
  unfolding register_one
  register [] w = w
  register (p ∷ ps) w = register ps (register_one p w)

  -- The loop after a timeout.
  pub delete_all : List Pollfd → IoWaiter P → IoWaiter P
  unfolding del_file_event
  delete_all [] w = w
  delete_all (p ∷ ps) w = delete_all ps (del_file_event L p.fd all_events w)

  -- The loop after an event.
  pub collect : List Pollfd → IoWaiter P → IoWaiter P × List Pollfd × ℕ
  unfolding get_file_event del_file_event
  collect [] w = (w, [], 0)
  collect (p ∷ ps) w =
      let (w1, e) = get_file_event L p.fd w in
      let (w2, qs, n) = collect ps (del_file_event L p.fd all_events w1) in
      (w2, record p { revents = of_mask e } ∷ qs, if of_mask e == 0 then n else n + 1)

  -- The timer of a pause: -1 where none is asked for.
  unfoldable pub arm : ℤ → IoWaiter P → IoWaiter P × ℤ
  unfolding setup_timer
  arm timeout w = if is_positive timeout then setup_timer L timeout w else (w, negsuc 0)

  unfoldable pub disarm : ℤ → IoWaiter P → IoWaiter P
  unfolding cancel_timer
  disarm id w = if is_minus_one id then w else cancel_timer L id w

module _ {P S : Type 0} (L : EventLoop P) (others : Host P S → Host P S)
    (poll_f : List Pollfd → ℤ → Original S (ℤ × List Pollfd)) where
  -- What is done when the fiber has been resumed; `isWaitTimeout` reads the mark and clears it.
  pub harvest : List Pollfd → M P S (ℤ × List Pollfd)
  unfolding Fiber.is_wait_timeout delete_all collect
  harvest fds h =
      let (f, late) = Fiber.is_wait_timeout h.fiber in
      let w = record (h.io) { fiber = f } in
      if late
      then (with_io (delete_all L fds w) h, Hooker.returned (pos 0, fds))
      else let (w1, qs, n) = collect L fds w in return_with 0 (pos n, qs) (with_io w1 h)

  -- The fiber asks for its events and a timer, and pauses.
  unfoldable pub wait : List Pollfd → ℤ → Host P S → Host P S
  unfolding register arm disarm pause
  wait fds timeout h =
      let (w, id) = arm L timeout (register L fds h.io) in
      let h1 = pause L others (with_io w h) in with_io (disarm L id h1.io) h1

  -- From the registration on.
  pub await : List Pollfd → ℤ → M P S (ℤ × List Pollfd)
  unfolding wait harvest
  await fds timeout h =
      if all_invalid fds
      then return_with 0 (pos (length fds), fds) (with_io (register L fds h.io) h)
      else harvest fds (wait fds timeout h)

  poll_once : List Pollfd → ℤ → M P S (ℤ × List Pollfd)
  unfolding await
  poll_once fds timeout = do
    (r, qs) ← original (poll_f fds (pos 0))
    if is_zero r then await qs timeout else return (r, qs)

  unfoldable pub poll : List Pollfd → ℤ → M P S (ℤ × List Pollfd)
  unfolding poll_once nap
  poll fds timeout h =
      if skips h || is_zero timeout
      then original (poll_f fds timeout) h
      else if all_invalid fds
      then (nap L others timeout >> return (pos 0, fds)) h
      else poll_once fds timeout h
