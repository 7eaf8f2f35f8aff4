-- ===== src/Scheduler/Delivering.antt =====
-- src/EFiberBlocker.cpp, src/EFiberScheduler.cpp: a permit that is handed to a waiting fiber moves the
-- fiber to its run queue, and keeps every fiber in one place.
use cxx_fiber.Prelude.{ℕ, ◌+◌, ◌≡◌, refl, inl, inr, ◌∷◌, arith, update, ap, Option-cases}
use cxx_fiber.Fifo.{Fifo}
use cxx_fiber.Blocker
use cxx_fiber.Blocker.{Waiter, fiber, thread, Blocker, Reply, parked, passed}
use cxx_fiber.Blocker.Permits.{wake_up_cases}
use cxx_fiber.Runtime.{put_blocker}
use cxx_fiber.Fiber.{swap_in}
use cxx_fiber.Scheduler.{deliver}
use cxx_fiber.Scheduler.Steps.{System}
use cxx_fiber.Scheduler.Places.{Place, queued, parked_on, count_waiters, Inv}
use cxx_fiber.Scheduler.Waking.{woken, swap_in_cases, unseen-Inv, woken-Inv}

module _ {Q : Type 0} (F : Fifo Waiter Q) (n : ℕ) (s : System Q) (place : ℕ → Place)
    (inv : Inv F n s place) where
  open inv use {queue, wait, hold, fits, handles, small, census, sound, index, choice}

  -- Only the wait queues of the blockers matter.
  pub blockers-Inv :
      (bs : ℕ → Blocker Q)
      → ((d x : ℕ)
          → count_waiters x (F.to_list (bs d).wait_queue)
            ≡ count_waiters x (F.to_list (s.blockers d).wait_queue))
      → Inv F n (record s { world = record (s.world) { blockers = bs } }) place
  blockers-Inv bs same = record {
    queue = queue;
    wait = λ d x. ground (arith, wait d x, same d x);
    hold = hold;
    fits = fits;
    handles = handles;
    small = small;
    census = census;
    sound = sound;
    index = index;
    choice = choice;
  }

  wakes_fiber-Inv :
      (t g b : ℕ) (b' : Blocker Q)
      → F.to_list (s.blockers b).wait_queue ≡ fiber g ∷ F.to_list b'.wait_queue
      → (p : ℕ → Place) × Inv F n (record s { world = swap_in t g (put_blocker b b' s.world) }) p
  wakes_fiber-Inv t g b b' e = elim (Option-cases (s.fibers g).bound_queue) [
    | inl nq ↦ absurd (ground (arith, there, fits g))
    | inr (q, eq) ↦ elim (Option-cases (s.fibers g).io_waiter) [
      | inl ni ↦ absurd (ground (arith, there, fits g))
      | inr (i, ei) ↦ (
        update place g (queued q),
        elim (swap_in_cases t g q i (put_blocker b b' s.world) (ground (arith, there, fits g)) eq
            ei) [ inl p ↦ rw p (moved q) | inr p ↦ rw p (unseen-Inv F n _ _ (moved q) _ _ _ _ _) ],
      )
    ]
  ]
    where
      there : place g ≡ parked_on b
      there = ground (arith, wait b g)

      moved :
          (q : ℕ)
          → Inv F n
              (record s { world = woken q g (s.fibers g) (put_blocker b b' s.world) })
              (update place g (queued q))
      moved q =
          woken-Inv F n s place inv g q (s.fibers g) (update s.blockers b b') (inl (b, there)) refl
            (λ d x. ground (arith, wait d x, wait b x, there))

  pub wakes-Inv :
      (t b : ℕ)
      → (p : ℕ → Place) × Inv F n
          (record s {
            world =
                deliver t
                  (Blocker.wake_up F (s.blockers b)).1
                  (put_blocker b (Blocker.wake_up F (s.blockers b)).0 s.world);
          })
          p
  unfolding deliver
  wakes-Inv t b = elim (wake_up_cases F (s.blockers b)) [
    | inl (same, inl e) ↦ (place, rw e (quiet (λ x. ap (count_waiters x) same)))
    | inl (same, inr e) ↦ (place, rw e (quiet (λ x. ap (count_waiters x) same)))
    | inr (thread, e, l) ↦ (
      place,
      rw e (
          unseen-Inv F n (record s { world = put_blocker b woken_blocker s.world }) place
            (quiet (λ x. ground (arith, l))) s.signals s.waiters (s.notified + 1) s.hung
            s.balance_index),
    )
    | inr (fiber g, e, l) ↦ rw e (wakes_fiber-Inv t g b _ l)
  ]
    where
      woken_blocker : Blocker Q
      woken_blocker = (Blocker.wake_up F (s.blockers b)).0

      quiet :
          ((x : ℕ)
            → count_waiters x (F.to_list woken_blocker.wait_queue)
              ≡ count_waiters x (F.to_list (s.blockers b).wait_queue))
          → Inv F n (record s { world = put_blocker b woken_blocker s.world }) place
      quiet same = blockers-Inv (update s.blockers b woken_blocker) (λ d x. ground (arith, same x))
