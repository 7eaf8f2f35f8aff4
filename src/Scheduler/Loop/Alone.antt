-- ===== src/Scheduler/Loop/Alone.antt =====
-- src/EFiberScheduler.cpp: the loop of `join()`, where the scheduler has one thread, is a run of the
-- step relation of Scheduler.Steps too, and what a program may count on when it returns.
use cxx_fiber.Prelude.{
  ℕ, ◌<◌, ◌≡◌, refl, sym, ap, ◌∙◌, ◌⊎◌, inl, inr, Bool, true, false, Bool-cases, if_cases, none,
  some, List, [], ◌∷◌, arith, ltb, update, update_self,
}
use mathlib.Core.Path.{subst}
use cxx_fiber.Fifo.{Fifo}
use cxx_fiber.Blocker.{Waiter}
use cxx_fiber.Runtime.{World, new, terminated, put_fiber}
use cxx_fiber.Scheduler.{bind, bound}
use cxx_fiber.Scheduler.Steps.{
  Control, at_head, taken, running, finished, System, at_its_head, binds, next,
}
use cxx_fiber.Scheduler.Threads.{Reach-threads}
use cxx_fiber.Scheduler.Invariant.{IsPlaced, Reach-IsPlaced, join_completes, census_holds}
use cxx_fiber.Scheduler.Loop.{
  schedule_before, schedule_idle, schedule_after, Program, Thread, returned, enter, leave, idle,
  process, bind_default, take, switch_to, serve, attend, turn, loop, close, join, in_world, changed,
  ending,
}
use cxx_fiber.Scheduler.Loop.Reached.{
  At, Conforms, Here, Turned, Looped, report-Here, take-Here, process-Here, switch_to-Here,
  dispatch-Here, loop-Looped, leave_head,
}
use cxx_fiber.Scheduler.Loop.Completes.{outside, IsQuiet, report-shared, ending-outside}

module _ {Q : Type 0} (F : Fifo Waiter Q) (n : ℕ) (start : System Q) (P : Program Q)
    (ok : Conforms F n start P) (placed : IsPlaced F n start) (one : start.threads ≡ 1) where
  lt : 0 < start.threads
  lt = omega arith

  abbrev Alone : Control → Thread Q → Type 0
  Alone c j = Here F n start P ok 0 lt c j

  -- With one thread the index that `join()` leaves alone is right.
  bind_default_lem :
      (f : ℕ) (w : World Q) → (w.fibers f).thread_index ≡ 0 → bind_default f w ≡ bind 0 f w
  unfolding bind_default bind
  bind_default_lem f w e =
      ap (λ i. put_fiber f (record (bound 0 (w.fibers f)) { thread_index = i }) w) e

  bind_default-Here :
      (f : ℕ) (j : Thread Q) → Alone (taken f) j → Alone (running f) (in_world (bind_default f) j)
  bind_default-Here f j (k, c, r) =
      let (place, v) = Reach-IsPlaced F n r placed in
      let single = Reach-threads F n r in
      let same = bind_default_lem f j.shared.world (omega (arith, v.index f, single)) in
      (
        update k 0 (running f),
        update_self k 0 (running f),
        rw same (next r (binds 0 f (omega (arith, single)) c)),
      )

  serve-Here :
      (f : ℕ) (rest : List ℕ) (j : Thread Q)
      → j.shared.world.queues 0 ≡ f ∷ rest
      → Alone at_head j
      → Alone at_head (serve F P f rest j)
  unfolding serve
  serve-Here f rest j e h =
      let j1 = in_world (take 0 rest) j in
      let j2 = in_world (bind_default f) (process P 0 j1) in
      dispatch-Here F n start P ok 0 lt f (switch_to P 0 f j2) (
        switch_to-Here F n start P ok 0 lt f j2 (
          bind_default-Here f (process P 0 j1)
            (process-Here F n start P ok 0 lt f j1 (take-Here F n start P ok 0 lt f rest j e h))))

  idle-Here : (j : Thread Q) → Alone at_head j → Alone at_head (idle P j)
  unfolding idle
  idle-Here j h =
      report-Here F n start P ok 0 lt schedule_idle at_head (changed (P.events 0 3000) j)
        (ok.processes 0 3000 at_head j.shared lt at_its_head h)

  attend-Turned :
      (queue : List ℕ) (j : Thread Q)
      → j.shared.world.queues 0 ≡ queue
      → j.shared.interrupted ≡ false
      → Alone at_head j
      → Turned F n start P ok 0 lt (attend F P queue j)
  unfolding attend
  attend-Turned (f ∷ rest) j e up h = (serve-Here f rest j e h, λ no. absurd cc)
  attend-Turned [] j e up h = elim (Bool-cases (ltb 0 j.shared.world.total)) [
    | inl alive ↦ rw alive (idle-Here j h, λ no. absurd cc)
    | inr nobody ↦ rw nobody (h, λ _. inr (up, e, ground (arith, nobody)))
  ]

  turn-Turned : (j : Thread Q) → Alone at_head j → Turned F n start P ok 0 lt (turn F P j)
  unfolding turn
  turn-Turned j h =
      if_cases (Turned F n start P ok 0 lt) j.shared.interrupted (j, false)
        (attend F P (j.shared.world.queues 0) j) (λ e. (h, λ _. inl e))
        (λ e. attend-Turned (j.shared.world.queues 0) j refl e h)

  leave-Here : (j : Thread Q) → Alone finished j → Alone finished (leave P j)
  unfolding leave
  leave-Here j h =
      report-Here F n start P ok 0 lt schedule_after finished
        (record j { io_waiter = none; local = none; cleared = true; context = false }) h

  looped :
      (fuel : ℕ) (j : Thread Q)
      → Alone at_head j
      → Looped F n start P ok 0 lt (loop (turn F P) fuel (enter P 0 j))
  unfolding enter
  looped fuel j h = loop-Looped F n start P ok 0 lt (turn F P) turn-Turned fuel (enter P 0 j) (
      report-Here F n start P ok 0 lt schedule_before at_head
        (record j { local = some none; io_waiter = some 0 }) h)

  closed :
      (l : Thread Q × Bool)
      → Looped F n start P ok 0 lt l
      → let (j', e) = close (leave P) l in At F n start 0 (outside e) j'.shared
  closed (j, false) (h, _) = h
  closed (j, true) (h, over) =
      subst (λ c. At F n start 0 c (leave P j).shared) (sym (ending-outside (leave P j)))
        (leave-Here j (leave_head F n start P ok 0 lt j (over refl) h))

  join-reached :
      (fuel : ℕ) (j : Thread Q)
      → Alone at_head j
      → let (j', e) = join F P fuel j in At F n start 0 (outside e) j'.shared
  unfolding join
  join-reached fuel j h = closed (loop (turn F P) fuel (enter P 0 j)) (looped fuel j h)

  module _ (quiet : IsQuiet P) where
    leave-shared : (j : Thread Q) → (leave P j).shared ≡ j.shared
    unfolding leave
    leave-shared j =
        report-shared P 0 quiet schedule_after
          (record j { io_waiter = none; local = none; cleared = true; context = false })

    returned-total :
        (l : Thread Q × Bool)
        → Looped F n start P ok 0 lt l
        → (close (leave P) l).1 ≡ returned
        → (close (leave P) l).0.shared.world.total ≡ 0
    unfolding ending
    returned-total (j, false) h e = absurd (ground arith)
    returned-total (j, true) (h, over) e = elim (over refl) [
      | inl i ↦ absurd (ground (arith, ap (λ s. s.interrupted) (leave-shared j)))
      | inr (up, q, z) ↦ ap (λ s. s.world.total) (leave-shared j) ∙ z
    ]

    -- When `join()` of a scheduler with one thread returns and does not throw, every fiber below the
    -- bound is new or has ended, and no null pointer was followed. The start is well-formed; the bodies
    -- of the fibers, the processing of events and the callback do what the steps allow, and the
    -- callback leaves what the threads share alone.
    pub join-completes :
        (fuel : ℕ) (j : Thread Q)
        → At F n start 0 at_head j.shared
        → (join F P fuel j).1 ≡ returned
        → (x : ℕ) → x < n
        → let w = (join F P fuel j).0.shared.world in
          (((w.fibers x).state ≡ new) ⊎ ((w.fibers x).state ≡ terminated)) × (w.faulted ≡ false)
    unfolding join
    join-completes fuel j h e x below =
        let (k, c, r) = join-reached fuel j h in
        (
          join_completes F n placed r
              (returned-total (loop (turn F P) fuel (enter P 0 j)) (looped fuel j h) e) x below,
          (census_holds F n placed r).1,
        )
