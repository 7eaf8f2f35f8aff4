-- ===== src/Scheduler/Closed.antt =====
-- Fibers whose bodies schedule no fibers: no step of src/EFiberScheduler.cpp changes what a fiber has
-- still to do, but the fiber's own calls.
use cxx_fiber.Prelude.{
  ℕ, ◌+◌, ◌≡◌, refl, ap, ◌∙◌, true, false, Option, none, some, List, [], ◌∷◌, arith,
}
use mathlib.Core.Path.{subst}
use cxx_fiber.Fifo.{Fifo}
use cxx_fiber.Blocker
use cxx_fiber.Blocker.{Waiter, Reply}
use cxx_fiber.Fiber.{swap_in}
use cxx_fiber.Runtime.{
  runnable, Action, yields, waits, tries, wakes, sleeps, cancels_timer, schedules, schedules_here,
  Fiber, World, put_fiber, put_blocker,
}
use cxx_fiber.Scheduler.{
  bind, act, deliver, dispatch, park, fire, schedule, spread, place_in, by_balance,
}
use cxx_fiber.Scheduler.Steps.{
  System, Step, polls, binds, hangs, unhangs, fires, acts, returns, dispatches, enters, exits,
  quits, signals, advance, Allowed, Reach, here, next,
}

-- A body that schedules no fibers.
abbrev pub SchedulesNone : Action → Type 0
SchedulesNone (schedules g) = ⊥
SchedulesNone (schedules_here g) = ⊥
SchedulesNone _ = Unit

abbrev pub IsClosed : List Action → Type 0
IsClosed [] = Unit
IsClosed (a ∷ rest) = SchedulesNone a × IsClosed rest

module _ {Q : Type 0} where
  swap_in-program :
      (t g x : ℕ) (w : World Q) → ((swap_in t g w).fibers x).program ≡ (w.fibers x).program
  unfolding swap_in
  swap_in-program t g x w = ground arith

  deliver-program :
      (t x : ℕ) (r : Reply) (w : World Q)
      → ((deliver t r w).fibers x).program ≡ (w.fibers x).program
  unfolding deliver
  deliver-program t x (Reply.resumed (Waiter.fiber g)) w = swap_in-program t g x w
  deliver-program t x (Reply.resumed Waiter.thread) w = refl
  deliver-program t x Reply.parked w = refl
  deliver-program t x Reply.passed w = refl
  deliver-program t x Reply.denied w = refl
  deliver-program t x Reply.stored w = refl
  deliver-program t x Reply.refused w = refl

  place_in-program :
      (i : Option ℕ) (g x : ℕ) (w : World Q)
      → ((place_in i g w).fibers x).program ≡ (w.fibers x).program
  unfolding place_in
  place_in-program none g x w = refl
  place_in-program (some i) g x w = ground arith

  by_balance-fibers :
      (b : Option (ℕ → ℕ → ℕ)) (g : ℕ) (w : World Q) → (by_balance b g w).0.fibers ≡ w.fibers
  unfolding by_balance
  by_balance-fibers none g w = refl
  by_balance-fibers (some choose) g w = refl

  spread-program :
      (g x : ℕ) (w : World Q) → ((spread false none g w).fibers x).program ≡ (w.fibers x).program
  unfolding spread
  spread-program g x w =
      let (w', i) = by_balance w.balance g w in
      place_in-program i g x w'
      ∙ ap (λ (fs : ℕ → Fiber). (fs x).program) (by_balance-fibers w.balance g w)

  schedule-program :
      (g x : ℕ) (w : World Q) → ((schedule false none g w).fibers x).program ≡ (w.fibers x).program
  unfolding schedule
  schedule-program g x w =
      let w1 =
        put_fiber g (record (w.fibers g) { state = runnable }) (record w { total = w.total + 1 }) in
      ground (arith, spread-program g x w1)

module _ {Q : Type 0} (F : Fifo Waiter Q) where
  park-program :
      (t f x : ℕ) (b : Option ℕ) (w : World Q)
      → ((park F t f b w).fibers x).program ≡ (w.fibers x).program
  unfolding park
  park-program t f x none w = refl
  park-program t f x (some b) w = ground arith

  dispatch-program :
      (t f x : ℕ) (w : World Q) → ((dispatch F t f w).fibers x).program ≡ (w.fibers x).program
  unfolding dispatch
  dispatch-program t f x w = ground (arith, park-program t f x (w.fibers f).blocker w)

  -- A call that does not leave the stack keeps the program.
  pub act_on-program :
      (t f : ℕ) (a : Action) (w : World Q)
      → SchedulesNone a
      → (act F t f a w).1 ≡ false
      → ((act F t f a w).0.fibers f).program ≡ (w.fibers f).program
  unfolding act
  act_on-program t f yields w h e = absurd (ground arith)
  act_on-program t f (waits b) w h e = ground arith
  act_on-program t f (tries b) w h e = refl
  act_on-program t f (wakes b) w h e =
      deliver-program t f (Blocker.wake_up F (w.blockers b)).1
        (put_blocker b (Blocker.wake_up F (w.blockers b)).0 w)
  act_on-program t f sleeps w h e = absurd (ground arith)
  act_on-program t f cancels_timer w h e = refl
  act_on-program t f (schedules g) w h e = absurd h
  act_on-program t f (schedules_here g) w h e = absurd h

  act-IsClosed :
      (t f x : ℕ) (a : Action) (w : World Q)
      → SchedulesNone a
      → IsClosed (w.fibers x).program
      → IsClosed ((act F t f a w).0.fibers x).program
  unfolding act
  act-IsClosed t f x yields w h e = e
  act-IsClosed t f x (waits b) w h e = ground arith
  act-IsClosed t f x (tries b) w h e = e
  act-IsClosed t f x (wakes b) w h e =
      rw
        (deliver-program t x (Blocker.wake_up F (w.blockers b)).1
          (put_blocker b (Blocker.wake_up F (w.blockers b)).0 w))
        e
  act-IsClosed t f x sleeps w h e = ground arith
  act-IsClosed t f x cancels_timer w h e = e
  act-IsClosed t f x (schedules g) w h e = absurd h
  act-IsClosed t f x (schedules_here g) w h e = absurd h

  pub closed_Allowed : (n : ℕ) (w : World Q) (a : Action) → SchedulesNone a → Allowed n w a
  closed_Allowed n w yields h = tt
  closed_Allowed n w (waits b) h = tt
  closed_Allowed n w (tries b) h = tt
  closed_Allowed n w (wakes b) h = tt
  closed_Allowed n w sleeps h = tt
  closed_Allowed n w cancels_timer h = tt
  closed_Allowed n w (schedules g) h = absurd h
  closed_Allowed n w (schedules_here g) h = absurd h

  advance-IsClosed :
      (f x : ℕ) (rest : List Action) (w : World Q)
      → IsClosed rest
      → IsClosed (w.fibers x).program
      → IsClosed ((advance f rest w).fibers x).program
  advance-IsClosed f x rest w h e = ground arith

  abbrev pub AreClosed : System Q → Type 0
  AreClosed s = (x : ℕ) → IsClosed (s.fibers x).program

  Step-AreClosed : (n : ℕ) {s u : System Q} → Step F n s u → AreClosed s → AreClosed u
  unfolding bind fire
  Step-AreClosed n (polls t f rest lt c e) h x = h x
  Step-AreClosed n (binds t f lt c) h x = ground (arith, h x)
  Step-AreClosed n (hangs t lt c e pos) h x = h x
  Step-AreClosed n (unhangs t lt c) h x = h x
  Step-AreClosed n {s} (fires t g lt l st io) h x =
      rw (swap_in-program t g x (put_fiber g (record (s.fibers g) { timed_out = true }) s.world))
        (ground (arith, h x))
  Step-AreClosed n {s} (acts t f a rest lt c e ok) h x =
      let closed : IsClosed (a ∷ rest) = subst IsClosed e (h f) in
      act-IsClosed t f x a (advance f rest s.world) closed.0
        (advance-IsClosed f x rest s.world closed.1 (h x))
  Step-AreClosed n (returns t f lt c e) h x = ground (arith, h x)
  Step-AreClosed n {s} (dispatches t f lt c) h x = rw (dispatch-program t f x s.world) (h x)
  Step-AreClosed n {s} (enters g lt st few) h x = rw (schedule-program g x s.world) (h x)
  Step-AreClosed n (exits t lt c e z) h x = h x
  Step-AreClosed n (quits t lt c) h x = h x
  Step-AreClosed n (signals t i lt c) h x = h x

  pub Reach-AreClosed : (n : ℕ) {s u : System Q} → Reach F n s u → AreClosed s → AreClosed u
  Reach-AreClosed n here h = h
  Reach-AreClosed n (next r st) h = Step-AreClosed n st (Reach-AreClosed n r h)
