-- ===== src/Hooker/Poll/Waiting.antt =====
-- `poll` of src/EHooker.cpp: what the pause leaves of the registrations.
use cxx_fiber.Prelude.Int.{ℤ}
use cxx_fiber.Prelude.{
  ℕ, ◌+◌, ◌∙◌, ◌%◌, ◌^◌, ◌<◌, ◌≡◌, List, [], ◌∷◌, length, arith, refl, if◌then◌else◌,
}
use cxx_fiber.IoWaiter.{EventLoop, Keeps, IoWaiter, setup_timer, cancel_timer, hang}
use cxx_fiber.Hooker.{Original, Host, pause, with_io, is_minus_one}
use cxx_fiber.Hooker.Poll.{Pollfd, wait, register, arm, disarm}
use cxx_fiber.Hooker.Poll.Registrations.{fd_of, Fits, Idle, Enrolled, Accepts, register-enrols}

-- What the other fibers do while one is paused leaves its registrations in place and the io waiter's
-- accounts even.
pub record Spares {P S : Type 0} (L : EventLoop P) (others : Host P S → Host P S) (ps : List Pollfd)
    : Type 0 where
  pub registrations :
      (h : Host P S) (s k : ℕ) → Enrolled L h.io s k ps → Enrolled L (others h).io s k ps
  pub size : (h : Host P S) → L.set_size (others h).io.poll ≡ L.set_size h.io.poll
  pub waiters : (h : Host P S) → (others h).io.waiters ≡ h.io.waiters
  pub corrupted : (h : Host P S) → (others h).io.corrupted ≡ h.io.corrupted

-- A timer counts as one waiter.
abbrev pub extra : ℤ → ℕ
extra id = if is_minus_one id then 0 else 1

module _ {P : Type 0} (L : EventLoop P) (ok : Keeps L) where
  -- The registrations do not depend on what the calls on timers change.
  Enrolled-same :
      (ps : List Pollfd) (v w : IoWaiter P) (s k : ℕ)
      → ((fd : ℕ)
          → (L.get_file_events v.poll fd ≡ L.get_file_events w.poll fd)
            × (L.client_data v.poll fd ≡ L.client_data w.poll fd))
      → ((a : ℕ) → a < k + length ps → v.boxes a ≡ w.boxes a)
      → Enrolled L w s k ps
      → Enrolled L v s k ps
  Enrolled-same [] v w s k same boxes n = tt
  Enrolled-same (p ∷ ps) v w s k same boxes n = (
    (same (fd_of p)).0 ∙ n.0,
    (same (fd_of p)).1 ∙ n.1,
    boxes k (omega arith) ∙ n.2,
    Enrolled-same ps v w s (k + 1) same (λ a lt. boxes a (omega arith)) n.3,
  )

  arm_lem :
      (t : ℤ) (w : IoWaiter P)
      → w.waiters < 2 ^ 32
      → let (v, id) = arm L t w in
        ((fd : ℕ)
          → (L.get_file_events v.poll fd ≡ L.get_file_events w.poll fd)
            × (L.client_data v.poll fd ≡ L.client_data w.poll fd))
        × ((a : ℕ) → a < w.next → v.boxes a ≡ w.boxes a)
        × (L.set_size v.poll ≡ L.set_size w.poll)
        × (v.corrupted ≡ w.corrupted)
        × (v.waiters ≡ (w.waiters + extra id) % 2 ^ 32)
  unfolding arm setup_timer
  arm_lem t w small = (
    λ fd. ground (arith, ok.timer_frame w.poll t w.next fd),
    λ a lt. ground arith,
    ground (arith, ok.timer_size w.poll t w.next),
    ground arith,
    ground (arith, ok.timer_id w.poll t w.next),
  )

  disarm_lem :
      (id : ℤ) (w : IoWaiter P)
      → w.waiters < 2 ^ 32
      → let v = disarm L id w in
        ((fd : ℕ)
          → (L.get_file_events v.poll fd ≡ L.get_file_events w.poll fd)
            × (L.client_data v.poll fd ≡ L.client_data w.poll fd))
        × ((a : ℕ) → v.boxes a ≡ w.boxes a)
        × (L.set_size v.poll ≡ L.set_size w.poll)
        × (v.corrupted ≡ w.corrupted)
        × ((v.waiters + extra id) % 2 ^ 32 ≡ w.waiters)
        × (v.waiters < 2 ^ 32)
  unfolding disarm cancel_timer
  disarm_lem id w small = (
    λ fd. ground (arith, ok.cancel_frame w.poll id fd),
    λ a. ground arith,
    ground (arith, ok.cancel_size w.poll id),
    ground arith,
    ground arith,
    ground arith,
  )

module _ {P S : Type 0} (L : EventLoop P) (ok : Keeps L) (accepts : Accepts L)
    (others : Host P S → Host P S) (poll_f : List Pollfd → ℤ → Original S (ℤ × List Pollfd)) where
  -- The fiber comes back to its registrations, and the counter is up by their number.
  pub wait_lem :
      (fds : List Pollfd) (timeout : ℤ) (h : Host P S)
      → Spares L others fds
      → Fits (L.set_size h.io.poll) fds
      → Idle L h.io.poll fds
      → h.io.waiters < 2 ^ 32
      → let v = (wait L others poll_f fds timeout h).io in
        Enrolled L v h.io.self h.io.next fds
        × (v.corrupted ≡ h.io.corrupted)
        × (L.set_size v.poll ≡ L.set_size h.io.poll)
        × (v.waiters ≡ (h.io.waiters + length fds) % 2 ^ 32)
  unfolding wait pause hang
  wait_lem fds timeout h sp fits idle small =
      let w = register L fds h.io in
      let r =
        register-enrols L ok accepts fds h.io (L.set_size h.io.poll) h.io.next h.io.self refl refl
          fits idle small in
      let (v, id) = arm L timeout w in
      let a = arm_lem L ok timeout w (omega (arith, r.3)) in
      let g = with_io (hang v) h in
      let b = others g in
      let n = sp.registrations g h.io.self h.io.next (
        Enrolled-same L ok fds (hang v) w h.io.self h.io.next a.0
          (λ x lt. a.1 x (omega (arith, r.1))) r.0) in
      let d = disarm_lem L ok id b.io (omega (arith, sp.waiters g, a.4)) in
      (
        Enrolled-same L ok fds (disarm L id b.io) b.io h.io.self h.io.next d.0 (λ x lt. d.1 x) n,
        d.3 ∙ sp.corrupted g ∙ a.3 ∙ r.2,
        d.2 ∙ sp.size g ∙ a.2 ∙ r.4,
        omega (arith, d.4, d.5, sp.waiters g, a.4, r.3),
      )
