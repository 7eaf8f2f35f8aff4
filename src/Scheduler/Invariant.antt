-- ===== src/Scheduler/Invariant.antt =====
-- src/EFiberScheduler.cpp: what holds whenever the threads have come from a well-formed start.
use cxx_fiber.Prelude.{
  ℕ, some, ◌+◌, ◌≤◌, ◌<◌, ◌≡◌, ◌≢◌, refl, ◌⊎◌, inl, inr, true, false, arith, update, ap, List, [],
}
use cxx_fiber.Prelude.Sums.{sum_below, sum_below-zero, sum_below-eq-zero}
use cxx_fiber.Fifo.{Fifo}
use cxx_fiber.Blocker.{Waiter, Blocker}
use cxx_fiber.Fiber
use cxx_fiber.Scheduler.{create, fire}
use cxx_fiber.Runtime.{new, terminated, Action, Fiber}
use cxx_fiber.Scheduler.Steps.{
  at_head, polling, finished, System, Step, polls, binds, hangs, unhangs, fires, acts, returns,
  dispatches, enters, exits, quits, signals, Reach, here, next, advance,
}
use cxx_fiber.Scheduler.Places.{
  Place, unborn, held, count, count_held, count_waiters, alive, exits_now, Naps, Inv,
}
use cxx_fiber.Scheduler.Polling.{polls-Inv, binds-Inv, moves-Inv}
use cxx_fiber.Scheduler.Waking.{unseen-Inv, fires-Inv}
use cxx_fiber.Scheduler.Acting.{acts-Inv, advance-Inv, Allowed-advance}
use cxx_fiber.Scheduler.Scheduling.{enters-Inv}
use cxx_fiber.Scheduler.Leaving.{returns-Inv, dispatch_leaving, dispatch_exiting}

module _ {Q : Type 0} (F : Fifo Waiter Q) (n : ℕ) where
  -- Some assignment of places fits the system.
  abbrev pub IsPlaced : System Q → Type 0
  IsPlaced s = (place : ℕ → Place) × Inv F n s place

  Step-IsPlaced : {s u : System Q} → Step F n s u → IsPlaced s → IsPlaced u
  Step-IsPlaced {s} (polls t f rest lt c e) (p, v) =
      (update p f (held t), polls-Inv F n s p v t f rest lt c e)
  Step-IsPlaced {s} (binds t f lt c) (p, v) = (p, binds-Inv F n s p v t f lt c)
  Step-IsPlaced {s} (hangs t lt c e pos) (p, v) = (
    p,
    unseen-Inv F n _ p
        (moves-Inv F n s p v t at_head polling c (λ x. (refl, refl)) (refl, refl) tt lt) s.signals
        s.waiters s.notified (update s.hung t true) s.balance_index,
  )
  Step-IsPlaced {s} (unhangs t lt c) (p, v) = (
    p,
    unseen-Inv F n _ p
        (moves-Inv F n s p v t polling at_head c (λ x. (refl, refl)) (refl, refl) tt lt) s.signals
        s.waiters s.notified (update s.hung t false) s.balance_index,
  )
  Step-IsPlaced {s} (fires t g lt l st io) (p, v) = fires-Inv F n s p v t g l st io
  Step-IsPlaced {s} (acts t f a rest lt c e ok) (p, v) =
      acts-Inv F n (record s { world = advance f rest s.world }) p
        (advance-Inv F n s p v t f lt c rest) t f lt c a (Allowed-advance n f rest s.world a ok)
  Step-IsPlaced {s} (returns t f lt c e) (p, v) = (p, returns-Inv F n s p v t f lt (ground arith) c)
  Step-IsPlaced {s} (dispatches t f lt (inl c)) (p, v) =
      dispatch_leaving F n s p v t f lt (ground arith) c (s.fibers f).state refl
  Step-IsPlaced {s} (dispatches t f lt (inr c)) (p, v) =
      dispatch_exiting F n s p v t f lt (ground arith) c
  Step-IsPlaced {s} (enters g lt st few) (p, v) = enters-Inv F n s p v g lt st few
  Step-IsPlaced {s} (exits t lt c e z) (p, v) =
      (p, moves-Inv F n s p v t at_head finished c (λ x. (refl, refl)) (refl, refl) tt lt)
  Step-IsPlaced {s} (quits t lt c) (p, v) =
      (p, moves-Inv F n s p v t at_head finished c (λ x. (refl, refl)) (refl, refl) tt lt)
  Step-IsPlaced {s} (signals t i lt c) (p, v) = (
    p,
    unseen-Inv F n s p v (update s.signals i (s.signals i + 1)) s.waiters s.notified s.hung
        s.balance_index,
  )

  -- A new scheduler whose blockers nobody waits on.
  pub create-IsPlaced :
      (bodies : ℕ → List Action) (blockers : ℕ → Blocker Q) (threads : ℕ)
      → 0 < threads
      → ((b : ℕ) → F.to_list (blockers b).wait_queue ≡ [])
      → IsPlaced (record { world = create bodies blockers threads; control = λ _. at_head })
  unfolding create
  create-IsPlaced bodies blockers threads pos nobody = (
    λ _. unborn,
    record {
      queue = λ q x. refl;
      wait = λ b x. ap (count_waiters x) (nobody b);
      hold = λ t x. refl;
      fits = λ x. refl;
      handles = λ t. tt;
      small = λ x h. refl;
      census = omega (
        arith,
        sum_below-eq-zero (λ (a : Fiber). alive a.state) n (λ f. Fiber.create (bodies f))
            (λ _. refl),
        sum_below-eq-zero exits_now threads (λ _. at_head) (λ _. refl),
      );
      sound = refl;
      index = λ x. pos;
      choice = λ choose e. cc;
    },
  )

  pub Reach-IsPlaced : {s u : System Q} → Reach F n s u → IsPlaced s → IsPlaced u
  Reach-IsPlaced here h = h
  Reach-IsPlaced (next r st) h = Step-IsPlaced st (Reach-IsPlaced r h)

  -- However the threads interleave, no fiber is ever in two places, or twice in one: any two run
  -- queues, any two wait queues and any two threads hold it at most once in all. The bodies are any
  -- lists of the calls of Action, to which tryWait with a time does not belong, and fibers are scheduled
  -- by turns only while balanceIndex has not wrapped.
  pub one_place :
      {s u : System Q}
      → IsPlaced s
      → Reach F n s u
      → (x q r b d t v : ℕ) → q ≢ r
      → b ≢ d
      → t ≢ v
      → count x (u.queues q)
          + count x (u.queues r)
          + count_waiters x (F.to_list (u.blockers b).wait_queue)
          + count_waiters x (F.to_list (u.blockers d).wait_queue)
          + count_held x (u.control t)
          + count_held x (u.control v)
        ≤ 1
  one_place h r x q q' b d t v nq nb nt =
      let (p, i) = Reach-IsPlaced r h in
      ground (arith, i.queue q x, i.queue q' x, i.wait b x, i.wait d x, i.hold t x, i.hold v x)

  -- The fiber stands in its `sleep`, whose timer is set in the io waiter of a thread and not cancelled
  -- yet, and the timer puts it on a run queue, once, when it fires.
  abbrev pub AwaitsTimer : System Q → ℕ → Type 0
  AwaitsTimer u x =
      (t : ℕ) × (q : ℕ) × Naps (u.fibers x)
      × ((u.fibers x).io_waiter ≡ some t)
      × (count x ((fire t x u.world).queues q) ≡ 1)

  -- The counter is the number of fibers that have begun and not ended, plus those that have ended
  -- and that their thread has yet to dispose of; no null pointer is followed on the way.
  -- The bodies are any lists of the calls of Action, to which tryWait with a time does not belong, and
  -- fibers are scheduled by turns only while balanceIndex has not wrapped.
  pub census_holds :
      {s u : System Q}
      → IsPlaced s
      → Reach F n s u
      → (u.total
          ≡ sum_below (λ a. alive a.state) n u.fibers + sum_below exits_now u.threads u.control)
        × (u.faulted ≡ false)
  census_holds h r = let (p, v) = Reach-IsPlaced r h in (v.census, v.sound)

  -- When the counter is zero, every fiber has never been scheduled or has returned.
  pub join_completes :
      {s u : System Q}
      → IsPlaced s
      → Reach F n s u
      → u.total ≡ 0
      → (x : ℕ) → x < n
      → ((u.fibers x).state ≡ new) ⊎ ((u.fibers x).state ≡ terminated)
  join_completes {u} h r z x lt =
      let (p, v) = Reach-IsPlaced r h in
      ground (
        arith,
        sum_below-zero (λ (a : Fiber). alive a.state) n u.fibers x (omega (arith, v.census)) lt,
      )
