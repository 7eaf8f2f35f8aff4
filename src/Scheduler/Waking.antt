-- ===== src/Scheduler/Waking.antt =====
-- src/EFiber.cpp, src/EIoWaiter.cpp: `swapIn` moves a paused fiber to the run queue that it is bound
-- to, from the wait queue of a blocker or from its timer.
use cxx_fiber.Prelude.{
  ℕ, ◌≡◌, refl, ◌⊎◌, inl, inr, Bool, true, none, some, [], ◌∷◌, arith, update, update_self,
  update-update, ap, ◌∙◌, Option-cases,
}
use cxx_fiber.Prelude.Sums.{sum_below-update}
use cxx_fiber.Fifo.{Fifo}
use cxx_fiber.Blocker.{Waiter, Blocker}
use cxx_fiber.Runtime.{runnable, waiting, Fiber, World, put_fiber, enqueue, signal}
use cxx_fiber.Fiber.{swap_in, is_paused}
use cxx_fiber.Scheduler.{fire}
use cxx_fiber.Scheduler.Steps.{
  Control, at_head, polling, taken, running, leaving, exiting, finished, System, Listens,
  at_its_head, in_its_poll, before_its_fiber,
}
use cxx_fiber.Scheduler.Places.{
  Place, unborn, dead, queued, held, parked_on, napping, is_parked, count, count_append, count_held,
  count_waiters, alive, Ready, Handles, Inv,
}

-- A thread that processes events holds no fiber that waits.
Listens-Handles :
    {c : Control} (t x : ℕ) (fs : ℕ → Fiber)
    → Listens c
    → Handles t c fs
    → count_held x c ≡ 1
    → Ready (fs x)
Listens-Handles t x fs at_its_head h e = ground arith
Listens-Handles t x fs in_its_poll h e = ground arith
Listens-Handles t x fs before_its_fiber h e = ground arith

-- The fiber `g`, till now `a`, at the end of the run queue `q`.
abbrev pub woken : {Q : Type 0} → ℕ → ℕ → Fiber → World Q → World Q
woken q g a w = enqueue q g (put_fiber g (record a { blocker = none; state = runnable }) w)

module _ {Q : Type 0} where
  -- What `swapIn` does to a fiber that is bound: the signal is all that differs.
  pub swap_in_cases :
      (t g q i : ℕ) (w : World Q)
      → is_paused (w.fibers g).state ≡ true
      → (w.fibers g).bound_queue ≡ some q
      → (w.fibers g).io_waiter ≡ some i
      → (swap_in t g w ≡ woken q g (w.fibers g) w)
        ⊎ (swap_in t g w ≡ signal i (woken q g (w.fibers g) w))
  unfolding swap_in
  swap_in_cases t g q i w e b io = ground arith

module _ {Q : Type 0} (F : Fifo Waiter Q) (n : ℕ) (s : System Q) (place : ℕ → Place)
    (inv : Inv F n s place) where
  open inv use {queue, wait, hold, fits, handles, small, census, sound, index, choice}

  -- Only a fiber in the hands of no thread waits for its timer.
  nap_place :
      (t g : ℕ) (p : Place)
      → place g ≡ p
      → Listens (s.control t)
      → (s.fibers g).state ≡ waiting
      → (s.fibers g).io_waiter ≡ some t
      → place g ≡ napping t
  nap_place t g unborn e l st io = ground (arith, fits g)
  nap_place t g dead e l st io = ground (arith, fits g)
  nap_place t g (queued q) e l st io = ground (arith, fits g)
  nap_place t g (held u) e l st io = held_nap (s.control u) refl (ground (arith, hold u g))
    where
      held_nap : (k : Control) → s.control u ≡ k → count_held g k ≡ 1 → place g ≡ napping t
      held_nap at_head q h = ground arith
      held_nap polling q h = ground arith
      held_nap (taken f) q h = ground (arith, handles u)
      held_nap (running f) q h = ground (arith, handles u)
      held_nap (leaving f) q h =
          ground (arith, handles u, Listens-Handles t g s.fibers l (handles t))
      held_nap (exiting f) q h = ground (arith, handles u)
      held_nap finished q h = ground arith
  nap_place t g (parked_on b) e l st io = ground (arith, fits g)
  nap_place t g (napping u) e l st io = ground (arith, fits g)

  -- What the invariant does not see: signals, notified threads, waiters, the marks of hung threads
  -- and the counter of the round robin.
  pub unseen-Inv :
      (sg ws : ℕ → ℕ) (ts : ℕ) (hs : ℕ → Bool) (bi : ℕ)
      → Inv F n
          (record s {
            world = record (s.world) {
              signals = sg;
              waiters = ws;
              notified = ts;
              hung = hs;
              balance_index = bi;
            };
          })
          place
  unseen-Inv sg ws ts hs bi = record {
    queue = queue;
    wait = wait;
    hold = hold;
    fits = fits;
    handles = handles;
    small = small;
    census = census;
    sound = sound;
    index = index;
    choice = choice;
  }

  -- The fiber `g` leaves its timer, or the wait queues `bs` that hold the others still.
  module _ (g q : ℕ) (a : Fiber) (bs : ℕ → Blocker Q)
      (paused : ((b : ℕ) × (place g ≡ parked_on b)) ⊎ ((t : ℕ) × (place g ≡ napping t)))
      (same : a.thread_index ≡ (s.fibers g).thread_index)
      (left : (d x : ℕ)
        → count_waiters x (F.to_list (bs d).wait_queue)
          ≡ is_parked d (update place g (queued q) x)) where
    pub woken-Inv :
        Inv F n
          (record s { world = woken q g a (record (s.world) { blockers = bs }) })
          (update place g (queued q))
    woken-Inv = record {
      queue =
          λ r x. ground (arith, queue r x, queue q x, paused, count_append x (s.queues q) (g ∷ []));
      wait = left;
      hold = λ u x. ground (arith, hold u x, paused);
      fits = λ x. ground (arith, fits x, paused);
      handles = λ u. ground (arith, handles u, paused, hold u g);
      small = λ x h. ground (arith, small x h, small g, paused);
      census = ground (
        arith,
        census,
        paused,
        fits g,
        small g,
        sum_below-update (λ (a : Fiber). alive a.state) n s.fibers g
            (record a { blocker = none; state = runnable }),
      );
      sound = sound;
      index = λ x. ground (arith, index x, index g);
      choice = choice;
    }

-- `fire` of a bound fiber that waits.
fire_cases :
    {Q : Type 0} (t g q i : ℕ) (w : World Q)
    → (w.fibers g).state ≡ waiting
    → (w.fibers g).bound_queue ≡ some q
    → (w.fibers g).io_waiter ≡ some i
    → (fire t g w ≡ woken q g (record (w.fibers g) { timed_out = true }) w)
      ⊎ (fire t g w ≡ signal i (woken q g (record (w.fibers g) { timed_out = true }) w))
unfolding fire
fire_cases {Q} t g q i w e b io =
    elim (swap_in_cases t g q i w1 (ground arith) (ground arith) (ground arith)) [
      | inl p ↦ inl (p ∙ same)
      | inr p ↦ inr (p ∙ ap (signal i) same)
    ]
  where
    a : Fiber
    a = record (w.fibers g) { timed_out = true }

    w1 : World Q
    w1 = put_fiber g a w

    same : woken q g (w1.fibers g) w1 ≡ woken q g a w
    same =
        ap (λ b. woken q g b w1) (update_self w.fibers g a)
        ∙ ap (λ fs. enqueue q g (record w { fibers = fs }))
            (update-update w.fibers g a (record a { blocker = none; state = runnable }))

-- The timer of a fiber that stands in no run queue puts it at the end of one.
pub fire-count :
    {Q : Type 0} (t g q : ℕ) (w : World Q)
    → (w.fibers g).state ≡ waiting
    → (w.fibers g).bound_queue ≡ some q
    → (w.fibers g).io_waiter ≡ some t
    → count g (w.queues q) ≡ 0
    → count g ((fire t g w).queues q) ≡ 1
fire-count t g q w st b io absent = elim (fire_cases t g q t w st b io) [
  | inl p ↦ rw p (ground (arith, absent, count_append g (w.queues q) (g ∷ [])))
  | inr p ↦ rw p (ground (arith, absent, count_append g (w.queues q) (g ∷ [])))
]

module _ {Q : Type 0} (F : Fifo Waiter Q) (n : ℕ) (s : System Q) (place : ℕ → Place)
    (inv : Inv F n s place) where
  open inv use {queue, wait, hold, fits, handles, small, census, sound, index, choice}

  pub fires-Inv :
      (t g : ℕ)
      → Listens (s.control t)
      → (s.fibers g).state ≡ waiting
      → (s.fibers g).io_waiter ≡ some t
      → (p : ℕ → Place) × Inv F n (record s { world = fire t g s.world }) p
  fires-Inv t g l st io = elim (Option-cases (s.fibers g).bound_queue) [
    | inl e ↦ absurd (ground (arith, nap, fits g))
    | inr (q, e) ↦ (
      update place g (queued q),
      elim (fire_cases t g q t s.world st e io) [
        | inl p ↦ rw p (moved q)
        | inr p ↦ rw p (unseen-Inv F n _ _ (moved q) _ _ _ _ _)
      ],
    )
  ]
    where
      nap : place g ≡ napping t
      nap = nap_place F n s place inv t g (place g) refl l st io

      moved :
          (q : ℕ)
          → Inv F n
              (record s { world = woken q g (record (s.fibers g) { timed_out = true }) s.world })
              (update place g (queued q))
      moved q =
          woken-Inv F n s place inv g q (record (s.fibers g) { timed_out = true }) s.blockers
            (inr (t, nap)) refl (λ d x. ground (arith, wait d x, nap))
