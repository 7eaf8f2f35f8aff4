-- ===== src/Scheduler/Scheduling.antt =====
-- src/EFiberScheduler.cpp: `schedule` puts a new fiber in one place and leaves all others.
use cxx_fiber.Prelude.{
  ℕ, ◌+◌, ◌%◌, ◌^◌, ◌<◌, ◌≡◌, refl, inl, inr, Bool, true, false, Option, none, some, [], ◌∷◌, arith,
  update, Bool-cases, lt→ltb,
}
use cxx_fiber.Prelude.Sums.{sum_below-update}
use native.Mathlib.Nat.{mod-lt}
use cxx_fiber.Fifo.{Fifo}
use cxx_fiber.Blocker.{Waiter}
use cxx_fiber.Runtime.{new, runnable, Fiber, World, put_fiber, enqueue}
use cxx_fiber.Scheduler.{schedule, place_in, spread, by_balance, round_robin}
use cxx_fiber.Scheduler.Steps.{
  Control, at_head, polling, taken, running, leaving, exiting, finished, System,
}
use cxx_fiber.Scheduler.Places.{
  Place, unborn, dead, queued, held, parked_on, napping, count_append, count_held, alive, Inv,
}
use cxx_fiber.Scheduler.Waking.{unseen-Inv}

-- The fiber `g`, scheduled, at the end of the run queue `i`.
abbrev born : {Q : Type 0} → ℕ → ℕ → World Q → World Q
born i g w =
    enqueue i g
      (put_fiber g (record (w.fibers g) { state = runnable }) (record w { total = w.total + 1 }))

module _ {Q : Type 0} (F : Fifo Waiter Q) (n : ℕ) (s : System Q) (place : ℕ → Place)
    (inv : Inv F n s place) where
  open inv use {queue, wait, hold, fits, handles, small, census, sound, index, choice}

  -- Only a fiber that was never scheduled is new.
  new_place : (g : ℕ) (p : Place) → place g ≡ p → (s.fibers g).state ≡ new → place g ≡ unborn
  new_place g unborn e st = e
  new_place g dead e st = ground (arith, fits g)
  new_place g (queued q) e st = ground (arith, fits g)
  new_place g (held u) e st = held_new (s.control u) refl (ground (arith, hold u g))
    where
      held_new : (k : Control) → s.control u ≡ k → count_held g k ≡ 1 → place g ≡ unborn
      held_new at_head q h = ground arith
      held_new polling q h = ground arith
      held_new (taken f) q h = ground (arith, handles u)
      held_new (running f) q h = ground (arith, handles u)
      held_new (leaving f) q h = ground (arith, handles u)
      held_new (exiting f) q h = ground (arith, handles u)
      held_new finished q h = ground arith
  new_place g (parked_on b) e st = ground (arith, fits g)
  new_place g (napping u) e st = ground (arith, fits g)

  born-Inv :
      (i g : ℕ)
      → g < n
      → (s.fibers g).state ≡ new
      → Inv F n (record s { world = born i g s.world }) (update place g (queued i))
  born-Inv i g lt st = record {
    queue =
        λ r x. ground (arith, queue r x, queue i x, fresh, count_append x (s.queues i) (g ∷ []));
    wait = λ d x. ground (arith, wait d x, fresh);
    hold = λ u x. ground (arith, hold u x, fresh);
    fits = λ x. ground (arith, fits x, fresh);
    handles = λ u. ground (arith, handles u, fresh, hold u g);
    small = λ x h. ground (arith, small x h, fresh);
    census = ground (
      arith,
      census,
      sum_below-update (λ (a : Fiber). alive a.state) n s.fibers g
          (record (s.fibers g) { state = runnable }) lt,
    );
    sound = sound;
    index = λ x. ground (arith, index x, index g);
    choice = choice;
  }
    where
      fresh : place g ≡ unborn
      fresh = new_place g (place g) refl st

pub round_robin_small : (bits n : ℕ) → bits < 2 ^ 31 → round_robin bits n ≡ some (bits % n)
unfolding round_robin
round_robin_small bits n small = rw (lt→ltb bits (2 ^ 31) small) refl

module _ {Q : Type 0} where
  -- A fiber that is scheduled gets into one run queue, that of an existing thread.
  Scheduled : ℕ → World Q → World Q → Type 0
  Scheduled g w v =
      (i : ℕ) × (sg : ℕ → ℕ) × (bi : ℕ) × (v
        ≡ record (born i g w) { signals = sg; balance_index = bi })

  place_in_cases :
      (i g : ℕ) (w : World Q)
      → i < w.threads
      → (sg : ℕ → ℕ) × (place_in (some i) g w ≡ record (enqueue i g w) { signals = sg })
  unfolding place_in
  place_in_cases i g w h = elim (Bool-cases (w.hung i)) [
    | inl e ↦ (update w.signals i (w.signals i + 1), rw (lt→ltb i w.threads h) (rw e refl))
    | inr e ↦ (w.signals, rw (lt→ltb i w.threads h) (rw e refl))
  ]

  Spread : ℕ → World Q → World Q × Option ℕ → Type 0
  Spread g w (w', i) =
      (j : ℕ) × (sg : ℕ → ℕ) × (bi : ℕ) × (place_in i g w'
        ≡ record (enqueue j g w) { signals = sg; balance_index = bi })

  balance_cases :
      (b : Option (ℕ → ℕ → ℕ)) (g : ℕ) (w : World Q)
      → 0 < w.threads
      → ((choose : ℕ → ℕ → ℕ) → b ≡ some choose → choose g w.threads < w.threads)
      → w.balance_index < 2 ^ 31
      → Spread g w (by_balance b g w)
  unfolding Spread by_balance
  balance_cases none g w pos choice small =
      let w' : World Q = record w { balance_index = (w.balance_index + 1) % 2 ^ 32 } in
      let (sg, p) =
        place_in_cases (w.balance_index % w.threads) g w' (mod-lt w.balance_index pos) in
      (
        w.balance_index % w.threads,
        sg,
        (w.balance_index + 1) % 2 ^ 32,
        rw (round_robin_small w.balance_index w.threads small) p,
      )
  balance_cases (some choose) g w pos choice small =
      let (sg, p) = place_in_cases (choose g w.threads) g w (choice choose refl) in
      (choose g w.threads, sg, w.balance_index, p)

  spread_cases :
      (ignore : Bool) (f g : ℕ) (w : World Q)
      → 0 < w.threads
      → (w.fibers f).thread_index < w.threads
      → ((choose : ℕ → ℕ → ℕ) → w.balance ≡ some choose → (g : ℕ) → choose g w.threads < w.threads)
      → (ignore ≡ false → w.balance_index < 2 ^ 31)
      → (i : ℕ) × (sg : ℕ → ℕ) × (bi : ℕ) × (spread ignore (some f) g w
          ≡ record (enqueue i g w) { signals = sg; balance_index = bi })
  unfolding spread Spread
  spread_cases true f g w pos index choice small =
      let (sg, p) = place_in_cases (w.fibers f).thread_index g w index in
      ((w.fibers f).thread_index, sg, w.balance_index, p)
  spread_cases false f g w pos index choice small =
      balance_cases w.balance g w pos (λ choose e. choice choose e g) (small refl)

  schedule_cases :
      (ignore : Bool) (f g : ℕ) (w : World Q)
      → 0 < w.threads
      → ((x : ℕ) → (w.fibers x).thread_index < w.threads)
      → ((choose : ℕ → ℕ → ℕ) → w.balance ≡ some choose → (g : ℕ) → choose g w.threads < w.threads)
      → (ignore ≡ false → w.balance_index < 2 ^ 31)
      → Scheduled g w (schedule ignore (some f) g w)
  unfolding schedule Scheduled
  schedule_cases ignore f g w pos index choice small = elim (Bool-cases w.stubs) [
    | inr e ↦ (0, w.signals, w.balance_index, rw e refl)
    | inl e ↦ simp e (spread_cases ignore f g _ pos (ground (arith, index f, index g)) choice small)
  ]

module _ {Q : Type 0} (F : Fifo Waiter Q) (n : ℕ) (s : System Q) (place : ℕ → Place)
    (inv : Inv F n s place) where
  open inv use {queue, wait, hold, fits, handles, small, census, sound, index, choice}

  pub schedules-Inv :
      (ignore : Bool) (f g : ℕ)
      → 0 < s.threads
      → g < n
      → (s.fibers g).state ≡ new
      → (ignore ≡ false → s.balance_index < 2 ^ 31)
      → (p : ℕ → Place) × Inv F n (record s { world = schedule ignore (some f) g s.world }) p
  unfolding Scheduled
  schedules-Inv ignore f g pos lt st few =
      let (i, sg, bi, e) = schedule_cases ignore f g s.world pos index choice few in
      (
        update place g (queued i),
        rw e (
            unseen-Inv F n _ _ (born-Inv F n s place inv i g lt st) sg s.waiters s.notified s.hung
              bi),
      )

  pub enters-Inv :
      (g : ℕ)
      → g < n
      → (s.fibers g).state ≡ new
      → s.balance_index < 2 ^ 31
      → (p : ℕ → Place) × Inv F n (record s { world = schedule false none g s.world }) p
  unfolding schedule spread
  enters-Inv g lt st few = schedules-Inv false g g (omega (arith, index 0)) lt st (λ _. few)
