-- ===== src/Hooker/Epoll/Waits.antt =====
-- `epoll_wait` of src/EHooker.cpp: what it leaves in the io waiter and how it ends.
use cxx_fiber.Prelude.Int.{ℤ, pos}
use cxx_fiber.Prelude.{
  ℕ, ◌^◌, ◌<◌, ◌≡◌, ◌∙◌, refl, arith, true, false, List, [], ◌∷◌, Bool-cases, inl, inr,
}
use cxx_fiber.IoWaiter.{
  EventLoop, Keeps, IoWaiter, readable, all_events, set_file_event, del_file_event, setup_timer,
  cancel_timer,
}
use cxx_fiber.Hooker.{Host, Original, skips, with_io, pause, is_minus_one}
use cxx_fiber.Hooker.Poll.{
  Pollfd, is_zero, is_positive, arm, disarm, register, register_one, poll_in,
}
use cxx_fiber.Hooker.Poll
use cxx_fiber.Hooker.Poll.Registrations.{Accepts, delete_one}
use cxx_fiber.Hooker.Poll.Waiting.{Spares, wait_lem}
use cxx_fiber.Hooker.Epoll.{epoll_millis, pause_on, wait, wake, epoll_wait}

-- The registration of the call, as an entry of `poll`.
abbrev pub entry : ℕ → Pollfd
entry epfd = record { fd = pos epfd; events = poll_in; revents = 0 }

epoll_millis-positive : (t : ℤ) → is_positive (epoll_millis t) ≡ true
epoll_millis-positive t = elim (Bool-cases (is_positive t)) [ inl p ↦ rw p p | inr p ↦ rw p refl ]

module _ {P S : Type 0} (L : EventLoop P) (others : Host P S → Host P S) (ok : Keeps L) where
  -- A `poll` that is never called: only its pause is meant.
  abbrev unused : List Pollfd → ℤ → Original S (ℤ × List Pollfd)
  unused fds t s e = record { kernel = s; errno = e; value = (t, fds) }

  arm-positive : (t : ℤ) (w : IoWaiter P) → is_positive t ≡ true → arm L t w ≡ setup_timer L t w
  unfolding arm
  arm-positive t w p = rw p refl

  disarm-timer :
      (t : ℤ) (v w : IoWaiter P)
      → disarm L (setup_timer L t v).1 w ≡ cancel_timer L (setup_timer L t v).1 w
  unfolding disarm setup_timer
  disarm-timer t v w =
      let (n, e) = ok.timer_id v.poll t v.next in
      let none_missing : is_minus_one (L.time_event_create v.poll t v.next).1 ≡ false = rw e refl in
      rw none_missing refl

  -- The pause is that of `poll` with one entry, whose registration is then taken back.
  pause_on-as_poll :
      (epfd : ℕ) (t : ℤ) (h : Host P S)
      → is_positive t ≡ true
      → (pause_on L others epfd t h).io
        ≡ del_file_event L
            (pos epfd)
            all_events
            (Poll.wait L others unused (entry epfd ∷ []) t h).io
  unfolding pause_on Poll.wait register register_one
  pause_on-as_poll epfd t h p =
      let w = set_file_event L epfd readable h.io in
      rw
        (arm-positive t w p, disarm-timer t w (pause L others (with_io (setup_timer L t w).0 h)).io)
        refl

  -- A pause on a descriptor in range that nobody waits on gives back all that it took.
  pub pause_on-restores :
      Accepts L
      → (epfd : ℕ) (t : ℤ) (h : Host P S) → is_positive t ≡ true
      → Spares L others (entry epfd ∷ [])
      → epfd < L.set_size h.io.poll
      → L.get_file_events h.io.poll epfd ≡ 0
      → h.io.waiters < 2 ^ 32
      → let v = pause_on L others epfd t h in
        (v.io.waiters ≡ h.io.waiters) × (v.io.corrupted ≡ h.io.corrupted)
  pause_on-restores accepts epfd t h p sp fits idle small =
      let one = entry epfd in
      let v = (Poll.wait L others unused (one ∷ []) t h).io in
      let n =
        wait_lem L ok accepts others unused (one ∷ []) t h sp (refl, fits, tt, tt) (idle, tt)
          small in
      let d = delete_one L ok accepts one v h.io.next h.io.self refl (rw n.2 fits) n.0.1 n.0.2 in
      let same = pause_on-as_poll epfd t h p in rw same (omega (arith, d.1, n.3), d.0 ∙ n.1)

module _ {P S E : Type 0} (L : EventLoop P) (others : Host P S → Host P S)
    (epoll_wait_f : List E → ℤ → Original S (ℤ × List E)) (ok : Keeps L) where
  -- A call of `epoll_wait` in a fiber that may wait, on a descriptor in range that nobody waits on,
  -- gives back all that it took, however its pause ends: the io waiter counts as many waiters as
  -- before, and no memory that is not the program's is touched.
  epoll_wait-restores :
      Accepts L
      → (epfd : ℕ) (events : List E) (timeout : ℤ) (h : Host P S)
      → Spares L others (entry epfd ∷ [])
      → skips h ≡ false
      → is_zero timeout ≡ false
      → epfd < L.set_size h.io.poll
      → L.get_file_events h.io.poll epfd ≡ 0
      → h.io.waiters < 2 ^ 32
      → let v = (epoll_wait L others epoll_wait_f epfd events timeout h).0 in
        (v.io.waiters ≡ h.io.waiters) × (v.io.corrupted ≡ h.io.corrupted)
  unfolding epoll_wait wake wait
  epoll_wait-restores accepts epfd events timeout h sp run long fits idle small =
      let r =
        pause_on-restores L others ok accepts epfd (epoll_millis timeout) h
          (epoll_millis-positive timeout) sp fits idle small in
      let late = Bool-cases (pause_on L others epfd (epoll_millis timeout) h).io.fiber.timed_out in
      elim late [ inl past ↦ rw (run, long, past) r | inr woken ↦ rw (run, long, woken) r ]
