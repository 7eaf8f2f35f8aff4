-- ===== src/Hooker/Poll/Readiness.antt =====
-- `poll` of src/EHooker.cpp: its result when it has to wait, and what it leaves in the io waiter.
use cxx_fiber.Prelude.Int.{ℤ, pos}
use cxx_fiber.Prelude.{sym, ◌∙◌, ◌^◌, ◌<◌, ◌≡◌, false, List, arith, Bool-cases, inl, inr, map}
use cxx_fiber.IoWaiter.{EventLoop, Keeps}
use cxx_fiber.Hooker.{Original, Host, returned, skips}
use cxx_fiber.Hooker.Poll.{Pollfd, poll, poll_once, wait, await, harvest, all_invalid, is_zero}
use cxx_fiber.Hooker.Poll.Registrations.{
  Fits, Idle, Accepts, fully, asking, collect-balances, delete_all-balances,
}
use cxx_fiber.Hooker.Poll.Waiting.{Spares, wait_lem}

-- The call has to wait: a fiber makes it, with some descriptors, and not for a look only; and the
-- kernel's own `poll` finds nothing ready.
pub record HasToWait {P S : Type 0} (poll_f : List Pollfd → ℤ → Original S (ℤ × List Pollfd))
    (fds : List Pollfd) (timeout : ℤ) (h : Host P S) : Type 0 where
  pub in_fiber : skips h ≡ false
  pub not_zero : is_zero timeout ≡ false
  pub some_valid : all_invalid fds ≡ false
  pub nothing_ready : (poll_f fds (pos 0) h.kernel h.errno).value ≡ (pos 0, fds)

module _ {P S : Type 0} (L : EventLoop P) (others : Host P S → Host P S)
    (poll_f : List Pollfd → ℤ → Original S (ℤ × List Pollfd)) (fds : List Pollfd) (timeout : ℤ)
    (h : Host P S) where
  -- The host after the first look.
  abbrev pub looked : Host P S
  looked =
      let a = poll_f fds (pos 0) h.kernel h.errno in record h { kernel = a.kernel; errno = a.errno }

  pub poll-harvest :
      HasToWait poll_f fds timeout h
      → poll L others poll_f fds timeout h
        ≡ harvest L others poll_f fds (wait L others poll_f fds timeout looked)
  unfolding poll poll_once await
  poll-harvest c = rw (c.in_fiber, c.not_zero, c.some_valid, c.nothing_ready, c.some_valid)

  -- If the event loop accepts every registration, a call that has to wait, with descriptors in range and different from one another that nobody
  -- waits on, gives back all that it took, whether an event or the timer ends its pause: the io waiter
  -- counts as many waiters as before, and no memory that is not the program's is touched.
  poll-restores :
      Keeps L
      → Accepts L
      → Spares L others fds
      → HasToWait poll_f fds timeout h
      → Fits (L.set_size h.io.poll) fds
      → Idle L h.io.poll fds
      → h.io.waiters < 2 ^ 32
      → let v = (poll L others poll_f fds timeout h).0 in
        (v.io.waiters ≡ h.io.waiters) × (v.io.corrupted ≡ h.io.corrupted)
  unfolding harvest
  poll-restores ok accepts sp c fits idle small =
      let n = wait_lem L ok accepts others poll_f fds timeout looked sp fits idle small in
      let v = (wait L others poll_f fds timeout looked).io in
      let v1 = record v { fiber = record (v.fiber) { timed_out = false } } in
      let size = L.set_size h.io.poll in
      elim (Bool-cases v.fiber.timed_out) [
        | inl late ↦
            let t =
              delete_all-balances L ok accepts fds v1 h.io.next h.io.self size (sym n.2) fits n.0
                (omega (arith, n.3)) in
            rw (poll-harvest c, late) (omega (arith, t.1, t.2, n.3), t.0 ∙ n.1)
        | inr woken ↦
            let t =
              collect-balances L ok accepts fds v1 h.io.next h.io.self size (sym n.2) fits n.0
                (omega (arith, n.3)) in
            rw (poll-harvest c, woken) (omega (arith, t.1, t.2, n.3), t.0 ∙ n.1)
      ]

  -- If the event loop accepts every registration, after an event on any one file such a call reports every entry ready for all that it asks for,
  -- the others too; and its result is the number of entries that ask for something.
  poll-reports_all :
      Keeps L
      → Accepts L
      → Spares L others fds
      → HasToWait poll_f fds timeout h
      → Fits (L.set_size h.io.poll) fds
      → Idle L h.io.poll fds
      → h.io.waiters < 2 ^ 32
      → (wait L others poll_f fds timeout looked).io.fiber.timed_out ≡ false
      → (poll L others poll_f fds timeout h).1 ≡ returned (pos (asking fds), map fully fds)
  unfolding harvest
  poll-reports_all ok accepts sp c fits idle small woken =
      let n = wait_lem L ok accepts others poll_f fds timeout looked sp fits idle small in
      let v = (wait L others poll_f fds timeout looked).io in
      let t =
        collect-balances L ok accepts fds
          (record v { fiber = record (v.fiber) { timed_out = false } }) h.io.next h.io.self
          (L.set_size h.io.poll) (sym n.2) fits n.0 (omega (arith, n.3)) in
      rw (poll-harvest c, woken, t.4, t.3)
