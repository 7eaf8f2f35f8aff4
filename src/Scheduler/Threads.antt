-- ===== src/Scheduler/Threads.antt =====
-- src/EFiberScheduler.cpp: no step of a thread changes how many threads there are.
use cxx_fiber.Prelude.{ℕ, ◌+◌, ◌≡◌, refl, ◌∙◌, Bool, true, false, Option, none, some, arith, update}
use cxx_fiber.Fifo.{Fifo}
use cxx_fiber.Blocker.{Waiter, Reply}
use cxx_fiber.Blocker
use cxx_fiber.Runtime.{
  runnable, Action, yields, waits, tries, wakes, sleeps, cancels_timer, schedules, schedules_here,
  World, put_fiber,
}
use cxx_fiber.Fiber.{swap_in}
use cxx_fiber.Scheduler.{
  bind, act, deliver, dispatch, park, fire, schedule, spread, place_in, by_balance,
}
use cxx_fiber.Scheduler.Steps.{
  System, Step, polls, binds, hangs, unhangs, fires, acts, returns, dispatches, enters, exits,
  quits, signals, advance, Reach, here, next,
}

module _ {Q : Type 0} where
  swap_in-threads : (t g : ℕ) (w : World Q) → (swap_in t g w).threads ≡ w.threads
  unfolding swap_in
  swap_in-threads t g w = ground arith

  place_in-threads : (i : Option ℕ) (g : ℕ) (w : World Q) → (place_in i g w).threads ≡ w.threads
  unfolding place_in
  place_in-threads none g w = refl
  place_in-threads (some i) g w = ground arith

  by_balance-threads :
      (b : Option (ℕ → ℕ → ℕ)) (g : ℕ) (w : World Q) → (by_balance b g w).0.threads ≡ w.threads
  unfolding by_balance
  by_balance-threads none g w = refl
  by_balance-threads (some choose) g w = refl

  spread-threads :
      (ignore : Bool) (f : Option ℕ) (g : ℕ) (w : World Q)
      → (spread ignore f g w).threads ≡ w.threads
  unfolding spread
  spread-threads true none g w = place_in-threads (some 0) g w
  spread-threads true (some f) g w = place_in-threads (some (w.fibers f).thread_index) g w
  spread-threads false f g w =
      place_in-threads (by_balance w.balance g w).1 g (by_balance w.balance g w).0
      ∙ by_balance-threads w.balance g w

  schedule-threads :
      (ignore : Bool) (f : Option ℕ) (g : ℕ) (w : World Q)
      → (schedule ignore f g w).threads ≡ w.threads
  unfolding schedule
  schedule-threads ignore f g w =
      let w1 =
        put_fiber g (record (w.fibers g) { state = runnable }) (record w { total = w.total + 1 }) in
      ground (arith, spread-threads ignore f g w1)

  deliver-threads : (t : ℕ) (r : Reply) (w : World Q) → (deliver t r w).threads ≡ w.threads
  unfolding deliver
  deliver-threads t (Reply.resumed (Waiter.fiber g)) w = swap_in-threads t g w
  deliver-threads t (Reply.resumed Waiter.thread) w = refl
  deliver-threads t Reply.parked w = refl
  deliver-threads t Reply.passed w = refl
  deliver-threads t Reply.denied w = refl
  deliver-threads t Reply.stored w = refl
  deliver-threads t Reply.refused w = refl

module _ {Q : Type 0} (F : Fifo Waiter Q) where
  act-threads : (t f : ℕ) (a : Action) (w : World Q) → (act F t f a w).0.threads ≡ w.threads
  unfolding act
  act-threads t f yields w = refl
  act-threads t f (waits b) w = ground arith
  act-threads t f (tries b) w = refl
  act-threads t f (wakes b) w =
      deliver-threads t (Blocker.wake_up F (w.blockers b)).1
        (record w { blockers = update w.blockers b (Blocker.wake_up F (w.blockers b)).0 })
  act-threads t f sleeps w = refl
  act-threads t f cancels_timer w = refl
  act-threads t f (schedules g) w = schedule-threads false (some f) g w
  act-threads t f (schedules_here g) w = schedule-threads true (some f) g w

  park-threads : (t f : ℕ) (b : Option ℕ) (w : World Q) → (park F t f b w).threads ≡ w.threads
  unfolding park
  park-threads t f none w = refl
  park-threads t f (some b) w = ground arith

  dispatch-threads : (t f : ℕ) (w : World Q) → (dispatch F t f w).threads ≡ w.threads
  unfolding dispatch
  dispatch-threads t f w = ground (arith, park-threads t f (w.fibers f).blocker w)

  Step-threads : (n : ℕ) {s u : System Q} → Step F n s u → u.threads ≡ s.threads
  unfolding bind fire
  Step-threads n (polls t f rest lt c e) = refl
  Step-threads n (binds t f lt c) = refl
  Step-threads n (hangs t lt c e pos) = refl
  Step-threads n (unhangs t lt c) = refl
  Step-threads n {s} (fires t g lt l st io) =
      swap_in-threads t g (put_fiber g (record (s.fibers g) { timed_out = true }) s.world)
  Step-threads n {s} (acts t f a rest lt c e ok) = act-threads t f a (advance f rest s.world)
  Step-threads n (returns t f lt c e) = refl
  Step-threads n {s} (dispatches t f lt c) = dispatch-threads t f s.world
  Step-threads n {s} (enters g lt st few) = schedule-threads false none g s.world
  Step-threads n (exits t lt c e z) = refl
  Step-threads n (quits t lt c) = refl
  Step-threads n (signals t i lt c) = refl

  pub Reach-threads : (n : ℕ) {s u : System Q} → Reach F n s u → u.threads ≡ s.threads
  Reach-threads n here = refl
  Reach-threads n (next r st) = Step-threads n st ∙ Reach-threads n r
