-- ===== src/Scheduler/Acting.antt =====
-- src/EFiberBlocker.cpp, src/EFiberScheduler.cpp: the calls that a fiber's body makes keep every
-- fiber in one place.
use cxx_fiber.Prelude.{
  ℕ, ◌+◌, ◌-◌, ◌<◌, ◌≡◌, refl, sym, ◌⊎◌, inl, inr, Bool, true, false, some, List, ◌∷◌, arith,
  update, update_same,
}
use mathlib.Core.Path.{subst}
use cxx_fiber.Prelude.Sums.{sum_below-update}
use cxx_fiber.Fifo.{Fifo}
use cxx_fiber.Blocker
use cxx_fiber.Blocker.{Waiter, fiber, thread, Blocker, Reply, parked, passed}
use cxx_fiber.Blocker.Permits.{wait_check-queue, wait_check_cases, try_wait-queue}
use cxx_fiber.Runtime.{
  blocked, waiting, Action, yields, waits, tries, wakes, sleeps, cancels_timer, schedules,
  schedules_here, Fiber, World, put_fiber,
}
use cxx_fiber.Scheduler.{act}
use cxx_fiber.Scheduler.Steps.{Control, running, leaving, System, Allowed, after, advance}
use cxx_fiber.Scheduler.Places.{Place, held, alive, exits_now, Ready, Naps, Inv}
use cxx_fiber.Scheduler.Scheduling.{schedules-Inv}
use cxx_fiber.Scheduler.Waking.{unseen-Inv}
use cxx_fiber.Scheduler.Delivering.{blockers-Inv, wakes-Inv}

-- The call that is made stays allowed when it is taken off the program.
pub Allowed-advance :
    {Q : Type 0} (n f : ℕ) (rest : List Action) (w : World Q) (a : Action)
    → Allowed n w a
    → Allowed n (advance f rest w) a
Allowed-advance n f rest w (schedules g) h = (h.0, ground arith, h.2)
Allowed-advance n f rest w (schedules_here g) h = (h.0, ground arith)
Allowed-advance n f rest w yields h = tt
Allowed-advance n f rest w (waits b) h = tt
Allowed-advance n f rest w (tries b) h = tt
Allowed-advance n f rest w (wakes b) h = tt
Allowed-advance n f rest w sleeps h = tt
Allowed-advance n f rest w cancels_timer h = tt

module _ {Q : Type 0} (F : Fifo Waiter Q) (n : ℕ) (s : System Q) (place : ℕ → Place)
    (inv : Inv F n s place) where
  open inv use {queue, wait, hold, fits, handles, small, census, sound, index, choice}

  module _ (t f : ℕ) (lt : t < s.threads) (c : s.control t ≡ running f) where
    stands : place f ≡ held t
    stands = ground (arith, hold t f, c)

    below : f < n
    below = ground (arith, stands, small f)

    -- The fiber in the thread's hands changes its state or its program, and stays there.
    settle-Inv :
        (a : Fiber) (k : Control) (bs : ℕ → Blocker Q)
        → a.bound_queue ≡ (s.fibers f).bound_queue
        → a.io_waiter ≡ (s.fibers f).io_waiter
        → a.thread_index ≡ (s.fibers f).thread_index
        → alive a.state ≡ 1
        → ((k ≡ running f) × Ready a) ⊎ ((k ≡ leaving f) × (Ready a ⊎ Naps a))
        → ((d : ℕ) → F.to_list (bs d).wait_queue ≡ F.to_list (s.blockers d).wait_queue)
        → Inv F n
            (record {
              world = put_fiber f a (record (s.world) { blockers = bs });
              control = update s.control t k;
            })
            place
    settle-Inv a k bs eq eio ei al kc same = record {
      queue = queue;
      wait = λ d x. ground (arith, wait d x, same d);
      hold = λ u x. ground (arith, hold u x, hold t x, c);
      fits = λ x. ground (arith, fits x, stands);
      handles = λ u. ground (arith, handles u, stands, hold u f, c);
      small = small;
      census = ground (
        arith,
        census,
        handles t,
        c,
        sum_below-update (λ (a : Fiber). alive a.state) n s.fibers f a below,
        sum_below-update exits_now s.threads s.control t k lt,
      );
      sound = sound;
      index = λ x. ground (arith, index x, index f);
      choice = choice;
    }

module _ {Q : Type 0} (F : Fifo Waiter Q) (n : ℕ) (s : System Q) (place : ℕ → Place)
    (inv : Inv F n s place) where
  open inv use {queue, wait, hold, fits, handles, small, census, sound, index, choice}

  -- A call keeps every fiber in one place, whether the fiber goes on or leaves its stack.
  module _ (t f : ℕ) (lt : t < s.threads) (c : s.control t ≡ running f) where
    abbrev Goes : World Q → Bool → Type 0
    Goes w left =
        (p : ℕ → Place) × Inv F n
          (record { world = w; control = update s.control t (after left f) }) p

    -- A fiber that goes on leaves its thread where it was.
    Goes-after :
        (w : World Q) → ((p : ℕ → Place) × Inv F n (record s { world = w }) p) → Goes w false
    Goes-after w (p, v) = (
      p,
      subst (λ k. Inv F n (record { world = w; control = k }) p)
          (sym (update_same s.control t (running f) c)) v,
    )

    ready : Ready (s.fibers f)
    ready = ground (arith, handles t)

    leaves : Inv F n (record s { control = update s.control t (leaving f) }) place
    leaves =
        subst
          (λ fs.
            Inv F n
              (record {
                world = record (s.world) { fibers = fs };
                control = update s.control t (leaving f);
              })
              place)
          (update_same s.fibers f (s.fibers f) refl)
          (settle-Inv F n s place inv t f lt c (s.fibers f) (leaving f) s.blockers refl refl refl
            (ground (arith, ready)) (inr (refl, inl ready)) (λ d. refl))

    -- The call is taken off the fiber's program first.
    pub advance-Inv :
        (rest : List Action) → Inv F n (record s { world = advance f rest s.world }) place
    advance-Inv rest =
        subst (λ k. Inv F n (record { world = advance f rest s.world; control = k }) place)
          (update_same s.control t (running f) c)
          (settle-Inv F n s place inv t f lt c (record (s.fibers f) { program = rest }) (running f)
            s.blockers refl refl refl (ground (arith, ready)) (inl (refl, ready)) (λ d. refl))

    pub acts-Inv :
        (a : Action) → Allowed n s.world a → Goes (act F t f a s.world).0 (act F t f a s.world).1
    unfolding act
    acts-Inv yields h = (place, leaves)
    acts-Inv (waits b) h = elim (wait_check_cases F (s.blockers b)) [
      | inl e ↦
          rw (e, act)
            (Goes-after _ (
              place,
              blockers-Inv F n s place inv
                  (update s.blockers b (Blocker.wait_check (s.blockers b)).0)
                  (λ d x. ground (arith, wait_check-queue F (s.blockers b))),
            ))
      | inr e ↦
          rw (e, act)
            (
              place,
              settle-Inv F n s place inv t f lt c
                  (record (s.fibers f) { blocker = some b; state = blocked }) (leaving f) s.blockers
                  refl refl refl refl (inr (refl, inl (inr (refl, λ q. cc)))) (λ d. refl),
            )
    ]
    acts-Inv (tries b) h = Goes-after _ (
      place,
      blockers-Inv F n s place inv (update s.blockers b (Blocker.try_wait (s.blockers b)).0)
          (λ d x. ground (arith, try_wait-queue F (s.blockers b))),
    )
    acts-Inv (wakes b) h = Goes-after _ (wakes-Inv F n s place inv t b)
    acts-Inv sleeps h = (
      place,
      unseen-Inv F n _ place
          (settle-Inv F n s place inv t f lt c
            (record (s.fibers f) {
              timed_out = false;
              state = waiting;
              program = cancels_timer ∷ (s.fibers f).program;
            })
            (leaving f) s.blockers refl refl refl refl (inr (refl, inr (refl, refl))) (λ d. refl))
          s.signals (update s.waiters t (s.waiters t + 1)) s.notified s.hung s.balance_index,
    )
    acts-Inv cancels_timer h = Goes-after _ (
      place,
      unseen-Inv F n s place inv s.signals (update s.waiters t (s.waiters t - 1)) s.notified s.hung
          s.balance_index,
    )
    acts-Inv (schedules g) h =
        Goes-after _ (schedules-Inv F n s place inv false f g (omega arith) h.0 h.1 (λ _. h.2))
    acts-Inv (schedules_here g) h =
        Goes-after _ (schedules-Inv F n s place inv true f g (omega arith) h.0 h.1 (λ e. absurd cc))
