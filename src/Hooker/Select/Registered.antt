-- ===== src/Hooker/Select/Registered.antt =====
-- `select` of src/EHooker.cpp: which files it waits on.
use cxx_fiber.Prelude.Int.{ℤ, pos}
use cxx_fiber.Prelude.{
  ℕ, zero, suc, ◌≡◌, ◌≢◌, refl, ap, arith, Bool, true, false, ◌||◌, ◌==◌, Option, none, some, List,
  [], ◌∷◌, Bool-cases, inl, inr,
}
use cxx_fiber.Fiber
use cxx_fiber.FileContext.{Timeval}
use cxx_fiber.IoWaiter.{EventLoop, IoWaiter}
use cxx_fiber.Hooker.{Host, Original, skips, returned}
use cxx_fiber.Hooker.Poll.{is_zero}
use cxx_fiber.Hooker.Select.{
  FdSets, is_set, zeroed, cleared, no_sets, select_millis, zero_tv, capped, rounds, events_of,
  enroll, drop_all, gather, rest, harvest, await, select_once, select,
}

-- The descriptors from one on.
abbrev pub range : ℕ → ℕ → List ℕ
range zero fd = []
range (suc n) fd = fd ∷ range n (suc fd)

zeroed_lem : (fd : ℕ) (s : Option (ℕ → Bool)) → is_set fd (zeroed s) ≡ false
zeroed_lem fd none = refl
zeroed_lem fd (some s) = refl

zeroed_twice : (s : Option (ℕ → Bool)) → zeroed (zeroed s) ≡ zeroed s
zeroed_twice none = refl
zeroed_twice (some s) = refl

module _ {P : Type 0} (L : EventLoop P) where
  enroll-cleared :
      (n fd : ℕ) (s : FdSets) (w : IoWaiter P) → enroll L n fd 0 (cleared s) w ≡ (w, [])
  unfolding enroll
  enroll-cleared zero fd s w = refl
  enroll-cleared (suc n) fd s w =
      rw (zeroed_lem fd s.read_fds, zeroed_lem fd s.write_fds, enroll-cleared n (suc fd) s w) refl

  enroll-goes_on :
      (n fd events : ℕ) (s : FdSets) (w : IoWaiter P)
      → events ≢ 0
      → (enroll L n fd events s w).1 ≡ range n fd
  unfolding enroll
  enroll-goes_on zero fd events s w some_event = refl
  enroll-goes_on (suc n) fd events s w some_event =
      let now = events_of fd s events in
      let some_now : now ≢ 0 = ground arith in
      let not_zero : (now == 0) ≡ false = ground arith in
      rw not_zero (ap (λ l. fd ∷ l) (enroll-goes_on n (suc fd) now s _ some_now))

  -- Once a descriptor is selected, the loop of `select` registers every later one below its bound, in
  -- whatever sets it is or is not: a descriptor in none has the events of the last selected one.
  enroll-carries :
      (n fd events : ℕ) (s : FdSets) (w : IoWaiter P)
      → (is_set fd s.write_fds || is_set fd s.read_fds) ≡ true
      → (enroll L (suc n) fd events s w).1 ≡ range (suc n) fd
  unfolding enroll
  enroll-carries n fd events s w selected =
      let now = events_of fd s events in
      let some_now : now ≢ 0 = ground arith in
      let not_zero : (now == 0) ≡ false = ground arith in
      rw not_zero (ap (λ l. fd ∷ l) (enroll-goes_on n (suc fd) now s _ some_now))

cleared_twice : (s : FdSets) → cleared (cleared s) ≡ cleared s
cleared_twice s =
    rw (zeroed_twice s.read_fds, zeroed_twice s.write_fds, zeroed_twice s.except_fds) refl

module _ {P S : Type 0} (L : EventLoop P) (others : Host P S → Host P S)
    (select_f : ℤ → FdSets → Option Timeval → Original S (ℤ × FdSets)) where
  harvest-none :
      (s : FdSets) (h : Host P S)
      → let (g, o) = harvest L others select_f [] s h in
        (o ≡ returned (pos 0, s))
        × (g.io ≡ record (h.io) { fiber = (Fiber.is_wait_timeout h.fiber).0 })
  unfolding harvest drop_all gather
  harvest-none s h = elim (Bool-cases (Fiber.is_wait_timeout h.fiber).1) [
    | inl late ↦ rw late (refl, refl)
    | inr woken ↦ rw woken (refl, refl)
  ]

  await-none :
      (nfds : ℤ) (millis : ℕ) (s : FdSets) (h : Host P S)
      → await L others select_f nfds millis (cleared s) h
        ≡ harvest L others select_f [] (cleared s) (rest L others select_f millis h)
  unfolding await
  await-none nfds millis s h = rw (enroll-cleared L (rounds nfds) 0 s h.io, cleared_twice s) refl

  -- The host after the first look.
  abbrev pub looked : ℤ → FdSets → Host P S → Host P S
  looked nfds sets h =
      let a = select_f nfds sets (some zero_tv) h.kernel h.errno in
      record h { kernel = a.kernel; errno = a.errno }

  once-none :
      (nfds : ℤ) (millis : ℕ) (s : FdSets) (h : Host P S)
      → (select_f nfds s (some zero_tv) h.kernel h.errno).value ≡ (pos 0, cleared s)
      → select_once L others select_f nfds millis s h
        ≡ harvest L others select_f [] (cleared s) (rest L others select_f millis (looked nfds s h))
  unfolding select_once
  once-none nfds millis s h empty = rw empty (await-none nfds millis s (looked nfds s h))

  select-once :
      (nfds : ℤ) (sets : FdSets) (timeout : Option Timeval) (h : Host P S)
      → skips h ≡ false
      → (select_millis timeout == 0) ≡ false
      → is_zero nfds ≡ false
      → no_sets sets ≡ false
      → select L others select_f nfds sets timeout h
        ≡ select_once L others select_f (capped nfds) (select_millis timeout) sets h
  unfolding select
  select-once nfds sets timeout h run long bound given = rw (run, long, bound, given) refl

  -- A call in a fiber that has to wait, after a first look in which the kernel finds nothing and
  -- empties the sets, as it does then, waits on no file: it only sleeps for its timeout, leaves in
  -- the io waiter what such a sleep leaves, and returns 0, whatever ends the pause.
  pub select-sleeps :
      (nfds : ℤ) (sets : FdSets) (timeout : Option Timeval) (h : Host P S)
      → skips h ≡ false
      → (select_millis timeout == 0) ≡ false
      → is_zero nfds ≡ false
      → no_sets sets ≡ false
      → (select_f (capped nfds) sets (some zero_tv) h.kernel h.errno).value ≡ (pos 0, cleared sets)
      → let v = (rest L others select_f (select_millis timeout) (looked (capped nfds) sets h)).io in
        let (g, o) = select L others select_f nfds sets timeout h in
        (o ≡ returned (pos 0, cleared sets))
        × (g.io ≡ record v { fiber = (Fiber.is_wait_timeout v.fiber).0 })
  select-sleeps nfds sets timeout h run long bound given empty =
      let g = rest L others select_f (select_millis timeout) (looked (capped nfds) sets h) in
      rw
        (
          select-once nfds sets timeout h run long bound given,
          once-none (capped nfds) (select_millis timeout) sets h empty,
        )
        (harvest-none (cleared sets) g)
