-- ===== src/Scheduler/Loop/Completes.antt =====
-- src/EFiberScheduler.cpp: what a program may count on when `joinWithThreadBind` returns.
use cxx_fiber.Prelude.{
  ℕ, zero, suc, ◌<◌, ◌≡◌, refl, sym, ap, ◌∙◌, ◌⊎◌, inl, inr, Bool, true, false, Bool-cases, Option,
  none, some, arith, if_cases, ◌==◌,
}
use mathlib.Core.Path.{subst}
use cxx_fiber.Fifo.{Fifo}
use cxx_fiber.Blocker.{Waiter}
use cxx_fiber.Runtime.{World, new, terminated}
use cxx_fiber.Scheduler.Steps.{Control, at_head, finished, System}
use cxx_fiber.Scheduler.Invariant.{IsPlaced, join_completes, census_holds}
use cxx_fiber.Scheduler.Loop.{
  Phase, schedule_before, schedule_after, Shared, Program, Thread, Ending, returned, thrown,
  unfinished, tell, report, enter, leave_bound, signal_others, turn_bound, loop, close,
  join_with_thread_bind, in_world, ending,
}
use cxx_fiber.Scheduler.Loop.Reached.{
  At, Conforms, Looped, report-Here, loop_bound-Looped, leave_head, leave_bound-Here,
}

-- Where a thread stands when its loop is left, or has not yet been left.
abbrev pub outside : Ending → Control
outside unfinished = at_head
outside _ = finished

-- The schedule callback, if there is one, leaves what the threads share alone.
abbrev pub IsQuiet : {Q : Type 0} → Program Q → Type 0
IsQuiet {Q} P =
    (call : ℕ → Phase → Shared Q → Shared Q)
    → P.callback ≡ some call
    → (t : ℕ) (p : Phase) (s : Shared Q) → call t p s ≡ s

signal_others-total : {Q : Type 0} (t m : ℕ) (w : World Q) → (signal_others t m w).total ≡ w.total
unfolding signal_others
signal_others-total t zero w = refl
signal_others-total t (suc m) w = elim (Bool-cases (m == t)) [
  | inl e ↦ rw e (signal_others-total t m w)
  | inr e ↦ rw e (signal_others-total t m w)
]

pub ending-outside : {Q : Type 0} (j : Thread Q) → outside (ending j) ≡ finished
unfolding ending
ending-outside j =
    if_cases (λ e. outside e ≡ finished) j.shared.interrupted thrown returned (λ _. refl)
      (λ _. refl)

module _ {Q : Type 0} (P : Program Q) (t : ℕ) (quiet : IsQuiet P) where
  tell-shared :
      (call : Option (ℕ → Phase → Shared Q → Shared Q))
      → P.callback ≡ call
      → (p : Phase) (j : Thread Q) → (tell call t p j).shared ≡ j.shared
  unfolding tell
  tell-shared none e p j = refl
  tell-shared (some call) e p j = quiet call e t p j.shared

  pub report-shared : (p : Phase) (j : Thread Q) → (report P t p j).shared ≡ j.shared
  unfolding report
  report-shared p j = tell-shared P.callback refl p j

  pub leave_bound-shared :
      (j : Thread Q)
      → ((leave_bound P t j).shared.interrupted ≡ j.shared.interrupted)
        × ((leave_bound P t j).shared.world.total ≡ j.shared.world.total)
  unfolding leave_bound
  leave_bound-shared j =
      let j1 =
        in_world (λ w. signal_others t w.threads w)
          (record j { io_waiter = none; local = none; context = false }) in
      let e = report-shared schedule_after j1 in
      (
        ap (λ s. s.interrupted) e,
        ap (λ s. s.world.total) e ∙ signal_others-total t j.shared.world.threads j.shared.world,
      )

module _ {Q : Type 0} (F : Fifo Waiter Q) (n : ℕ) (start : System Q) (P : Program Q)
    (ok : Conforms F n start P) (t : ℕ) (lt : t < start.threads) where
  closed :
      (l : Thread Q × Bool)
      → Looped F n start P ok t lt l
      → let (j', e) = close (leave_bound P t) l in At F n start t (outside e) j'.shared
  closed (j, false) (h, _) = h
  closed (j, true) (h, over) =
      subst (λ c. At F n start t c (leave_bound P t j).shared)
        (sym (ending-outside (leave_bound P t j)))
        (leave_bound-Here F n start P ok t lt j (leave_head F n start P ok t lt j (over refl) h))

  -- The loop of `joinWithThreadBind` is a run of the step relation: wherever it stops, what the threads
  -- share is the state of a system that the threads reach from the start, this thread being out of
  -- its loop, or at the head of it if the fuel has run out. The thread may enter at any time, and the
  -- bodies of the fibers, the processing of events and the callback are to do what the steps allow.
  pub join_with_thread_bind-reached :
      (fuel : ℕ) (j : Thread Q)
      → At F n start t at_head j.shared
      → let (j', e) = join_with_thread_bind F P fuel t j in At F n start t (outside e) j'.shared
  unfolding join_with_thread_bind enter
  join_with_thread_bind-reached fuel j h = closed (loop (turn_bound F P t) fuel (enter P t j)) (
      loop_bound-Looped F n start P ok t lt fuel (enter P t j) (
        report-Here F n start P ok t lt schedule_before at_head
          (record j { local = some none; io_waiter = some t }) h))

  module _ (quiet : IsQuiet P) where
    returned-total :
        (l : Thread Q × Bool)
        → Looped F n start P ok t lt l
        → (close (leave_bound P t) l).1 ≡ returned
        → (close (leave_bound P t) l).0.shared.world.total ≡ 0
    unfolding ending
    returned-total (j, false) h e = absurd (ground arith)
    returned-total (j, true) (h, over) e = elim (over refl) [
      | inl i ↦ absurd (ground (arith, (leave_bound-shared P t quiet j).0))
      | inr (up, q, z) ↦ (leave_bound-shared P t quiet j).1 ∙ z
    ]

    -- When `joinWithThreadBind` returns and does not throw, every fiber below the bound is new or has
    -- ended, and no null pointer was followed. The start is well-formed; the bodies of the fibers, the
    -- processing of events and the callback do what the steps allow, and the callback leaves what the
    -- threads share alone.
    pub join_with_thread_bind-completes :
        IsPlaced F n start
        → (fuel : ℕ) (j : Thread Q) → At F n start t at_head j.shared
        → (join_with_thread_bind F P fuel t j).1 ≡ returned
        → (x : ℕ) → x < n
        → let w = (join_with_thread_bind F P fuel t j).0.shared.world in
          (((w.fibers x).state ≡ new) ⊎ ((w.fibers x).state ≡ terminated)) × (w.faulted ≡ false)
    unfolding join_with_thread_bind enter
    join_with_thread_bind-completes placed fuel j h e x below =
        let (k, c, r) = join_with_thread_bind-reached fuel j h in
        let j0 = record j { local = some none; io_waiter = some t } in
        let looped =
          loop_bound-Looped F n start P ok t lt fuel (enter P t j)
            (report-Here F n start P ok t lt schedule_before at_head j0 h) in
        (
          join_completes F n placed r
              (returned-total (loop (turn_bound F P t) fuel (enter P t j)) looped e) x below,
          (census_holds F n placed r).1,
        )
