-- ===== src/Hooker/Epoll/Kevent.antt =====
-- src/EHooker.cpp: kevent and kevent64, on macOS.
use cxx_fiber.Prelude.Int.{ℤ, pos, negsuc}
use cxx_fiber.Prelude.{
  ℕ, ◌+◌, ◌*◌, ◌/◌, ◌-◌, ◌^◌, ◌<◌, ◌≡◌, Bool, true, false, ◌||◌, ◌&&◌, ◌==◌, Option, none, some,
  List, [], ◌∷◌, if◌then◌else◌, Bool-cases, inl, inr, refl, ap, ◌∙◌, arith,
}
use cxx_fiber.Fiber
use cxx_fiber.IoWaiter.{EventLoop, IoWaiter, Keeps}
use cxx_fiber.Hooker.{Host, Original, M, return_with, original, skips, with_io, e_inval}
use cxx_fiber.Hooker.Sleeps.{Timespec}
use cxx_fiber.Hooker.Poll.Registrations.{Accepts}
use cxx_fiber.Hooker.Poll.Waiting.{Spares}
use cxx_fiber.Hooker.Epoll.{pause_on}
use cxx_fiber.Hooker.Epoll.Waits.{entry, pause_on-restores}

-- A null pointer is none, and the length of an array is that of its list.
abbrev pub is_zero_time : Option Timespec → Bool
is_zero_time none = false
is_zero_time (some t) = t.tv_sec == 0 && t.tv_nsec == 0

abbrev pub has_no_room : {E : Type 0} → Option (List E) → Bool
has_no_room none = true
has_no_room (some []) = true
has_no_room (some (e ∷ es)) = false

-- EInteger::MAX_VALUE without a time limit.
abbrev pub kevent_millis : Option Timespec → ℕ
kevent_millis none = 2 ^ 31 - 1
kevent_millis (some t) = t.tv_sec * 1000 + t.tv_nsec / 1000000

-- The original call: changes, room for events, and the time limit.
abbrev pub Kevent : Type 0 → Type 0 → Type 0 → Type 0
Kevent S C E =
    Option (List C) → Option (List E) → Option Timespec → Original S (ℤ × Option (List E))

module _ {P S C E : Type 0} (L : EventLoop P) (others : Host P S → Host P S) where
  -- The changes are made first, and what that returns is dropped.
  pub make_changes : Kevent S C E → Option (List C) → Host P S → Host P S
  make_changes kevent_f none h = h
  make_changes kevent_f (some []) h = h
  make_changes kevent_f (some (c ∷ cs)) h =
      let a = kevent_f (some (c ∷ cs)) none none h.kernel h.errno in
      record h { kernel = a.kernel; errno = a.errno }

  -- After the pause.
  pub wake : Kevent S C E → Option (List E) → M P S (ℤ × Option (List E))
  unfolding Fiber.is_wait_timeout
  wake kevent_f events h =
      let (f, late) = Fiber.is_wait_timeout h.fiber in
      let h1 = with_io (record (h.io) { fiber = f }) h in
      if late
      then return_with e_inval (negsuc 0, events) h1
      else original (kevent_f none events (some (record { tv_sec = 0; tv_nsec = 0 }))) h1

  pub kevent :
      Kevent S C E
      → ℕ
      → Option (List C)
      → Option (List E)
      → Option Timespec
      → M P S (ℤ × Option (List E))
  unfolding make_changes wake
  kevent kevent_f kq changes events timeout h =
      if skips h || (is_zero_time timeout || has_no_room events)
      then original (kevent_f changes events timeout) h
      else wake kevent_f events
          (pause_on L others kq (pos (kevent_millis timeout)) (make_changes kevent_f changes h))

  -- `kevent64` passes its flags on to each call.
  pub kevent64 :
      (ℕ → Kevent S C E)
      → ℕ
      → Option (List C)
      → Option (List E)
      → ℕ
      → Option Timespec
      → M P S (ℤ × Option (List E))
  unfolding make_changes wake
  kevent64 kevent64_f kq changes events flags timeout h =
      if skips h || (is_zero_time timeout || has_no_room events)
      then original (kevent64_f flags changes events timeout) h
      else wake (kevent64_f flags) events (
          pause_on L others kq (pos (kevent_millis timeout))
            (make_changes (kevent64_f flags) changes h))

is_zero_time-long :
    (timeout : Option Timespec) → 0 < kevent_millis timeout → is_zero_time timeout ≡ false
is_zero_time-long none long = refl
is_zero_time-long (some t) long = ground arith

module _ {P S C E : Type 0} (L : EventLoop P) (others : Host P S → Host P S) (ok : Keeps L) where
  make_changes-io :
      (kevent_f : Kevent S C E) (changes : Option (List C)) (h : Host P S)
      → (make_changes L others kevent_f changes h).io ≡ h.io
  unfolding make_changes
  make_changes-io kevent_f none h = refl
  make_changes-io kevent_f (some []) h = refl
  make_changes-io kevent_f (some (c ∷ cs)) h = refl

  wake-accounts :
      (kevent_f : Kevent S C E) (events : Option (List E)) (h : Host P S)
      → ((wake L others kevent_f events h).0.io.waiters ≡ h.io.waiters)
        × ((wake L others kevent_f events h).0.io.corrupted ≡ h.io.corrupted)
  unfolding wake
  wake-accounts kevent_f events h = elim (Bool-cases h.io.fiber.timed_out) [
    | inl late ↦ rw late (refl, refl)
    | inr woken ↦ rw woken (refl, refl)
  ]

  -- A call of `kevent` or `kevent64` in a fiber that waits for a millisecond or more, on a queue that
  -- nobody waits on and whose descriptor is in range, gives back all that it took, however its
  -- pause ends.
  kevent-restores :
      Accepts L
      → (kevent64_f : ℕ → Kevent S C E) (flags kq : ℕ) (changes : Option (List C)) (events : List E)
        (timeout : Option Timespec) (h : Host P S)
      → Spares L others (entry kq ∷ [])
      → skips h ≡ false
      → has_no_room (some events) ≡ false
      → 0 < kevent_millis timeout
      → kq < L.set_size h.io.poll
      → L.get_file_events h.io.poll kq ≡ 0
      → h.io.waiters < 2 ^ 32
      → let v = (kevent L others (kevent64_f flags) kq changes (some events) timeout h).0 in
        let v64 = (kevent64 L others kevent64_f kq changes (some events) flags timeout h).0 in
        ((v.io.waiters ≡ h.io.waiters) × (v.io.corrupted ≡ h.io.corrupted))
        × ((v64.io.waiters ≡ h.io.waiters) × (v64.io.corrupted ≡ h.io.corrupted))
  unfolding kevent kevent64 wake
  kevent-restores accepts kevent64_f flags kq changes events timeout h sp run room long fits idle
        small =
      let g = make_changes L others (kevent64_f flags) changes h in
      let same = make_changes-io (kevent64_f flags) changes h in
      let r =
        pause_on-restores L others ok accepts kq (pos (kevent_millis timeout)) g (ground arith) sp
          (rw same fits) (rw same idle) (rw same small) in
      let w = pause_on L others kq (pos (kevent_millis timeout)) g in
      let (n, c) = wake-accounts (kevent64_f flags) (some events) w in
      let waiters = n ∙ r.0 ∙ ap (λ (i : IoWaiter P). i.waiters) same in
      let corrupted = c ∙ r.1 ∙ ap (λ (i : IoWaiter P). i.corrupted) same in
      rw (run, is_zero_time-long timeout long, room) ((waiters, corrupted), (waiters, corrupted))
