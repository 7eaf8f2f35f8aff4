-- ===== src/Hooker/Poll/Negative.antt =====
-- `poll` of src/EHooker.cpp with entries whose descriptor is negative, which the kernel ignores.
use cxx_fiber.Prelude.Int.{ℤ, pos, negsuc, is_negative}
use cxx_fiber.Prelude.{◌≡◌, Bool, true, false, ◌||◌, List, [], ◌∷◌, arith, Bool-cases, inl, inr}
use cxx_fiber.IoWaiter.{EventLoop, IoWaiter, all_events, del_file_event, get_file_event}
use cxx_fiber.Hooker.{Original, Host, skips, nap, failed, illegal_argument}
use cxx_fiber.Hooker.Poll.{Pollfd, poll, all_invalid, wait, harvest, collect, delete_all}
use cxx_fiber.Hooker.Poll.Readiness.{HasToWait, looked, poll-harvest}

abbrev pub some_negative : List Pollfd → Bool
some_negative [] = false
some_negative (p ∷ ps) = is_negative p.fd || some_negative ps

module _ {P : Type 0} (L : EventLoop P) where
  delete_one-corrupted :
      (p : Pollfd) (w : IoWaiter P)
      → (w.corrupted || is_negative p.fd) ≡ true
      → (del_file_event L p.fd all_events w).corrupted ≡ true
  unfolding del_file_event
  delete_one-corrupted p w e = ground arith

  get_one-corrupted :
      (p : Pollfd) (w : IoWaiter P)
      → w.corrupted ≡ true
      → (get_file_event L p.fd w).0.corrupted ≡ true
  unfolding get_file_event
  get_one-corrupted p w e = ground arith

  get_one-negative :
      (p : Pollfd) (w : IoWaiter P)
      → (w.corrupted || is_negative p.fd) ≡ true
      → ((get_file_event L p.fd w).0.corrupted || is_negative p.fd) ≡ true
  unfolding get_file_event
  get_one-negative p w e = ground arith

  delete_all-corrupted :
      (ps : List Pollfd) (w : IoWaiter P)
      → (w.corrupted || some_negative ps) ≡ true
      → (delete_all L ps w).corrupted ≡ true
  unfolding delete_all
  delete_all-corrupted [] w e = ground arith
  delete_all-corrupted (p ∷ ps) w e =
      delete_all-corrupted ps _ (ground (arith, delete_one-corrupted p w))

  collect-corrupted :
      (ps : List Pollfd) (w : IoWaiter P)
      → (w.corrupted || some_negative ps) ≡ true
      → (collect L ps w).0.corrupted ≡ true
  unfolding collect
  collect-corrupted [] w e = ground arith
  collect-corrupted (p ∷ ps) w e = collect-corrupted ps _ (
      ground (
        arith,
        delete_one-corrupted p (get_file_event L p.fd w).0,
        get_one-negative p w,
        get_one-corrupted p w,
      ))

module _ {P S : Type 0} (L : EventLoop P) (others : Host P S → Host P S)
    (poll_f : List Pollfd → ℤ → Original S (ℤ × List Pollfd)) where
  -- A call that has to wait, with a negative descriptor among its entries, looks before the start of
  -- the event loop's array afterwards, whatever the event loop and the other fibers have done.
  poll-corrupts :
      (fds : List Pollfd) (timeout : ℤ) (h : Host P S)
      → HasToWait poll_f fds timeout h
      → some_negative fds ≡ true
      → (poll L others poll_f fds timeout h).0.io.corrupted ≡ true
  unfolding harvest
  poll-corrupts fds timeout h c neg =
      let v = (wait L others poll_f fds timeout (looked L others poll_f fds timeout h)).io in
      let v1 = record v { fiber = record (v.fiber) { timed_out = false } } in
      elim (Bool-cases v.fiber.timed_out) [
        | inl late ↦
            rw (poll-harvest L others poll_f fds timeout h c, late)
              (delete_all-corrupted L fds v1 (ground arith))
        | inr woken ↦
            rw (poll-harvest L others poll_f fds timeout h c, woken)
              (collect-corrupted L fds v1 (ground arith))
      ]

  -- In a fiber, a call without a valid descriptor that asks to wait for ever, by a negative timeout,
  -- does not wait: it throws, and changes nothing.
  pub poll_forever-throws :
      (fds : List Pollfd) (timeout : ℤ) (h : Host P S)
      → skips h ≡ false
      → all_invalid fds ≡ true
      → is_negative timeout ≡ true
      → poll L others poll_f fds timeout h ≡ (h, failed illegal_argument)
  unfolding poll nap
  poll_forever-throws fds (pos n) h run none neg = cc
  poll_forever-throws fds (negsuc n) h run none neg = rw (run, none)
