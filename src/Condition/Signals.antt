-- ===== src/Condition/Signals.antt =====
-- src/EFiberCondition.cpp: whom `signal` and `signalAll` resume, and what `signalAll` leaves behind.
use cxx_fiber.Prelude.{
  ℕ, ◌<◌, ◌≡◌, refl, ◌≢◌, some, List, [], ◌∷◌, ◌++◌, map, update, ap, sym, Fresh, Distinct, arith,
  update_self, update_ne,
}
use mathlib.Core.Path.{ap₂, ◌∙◌}
use cxx_fiber.Fifo.{Fifo}
use cxx_fiber.Blocker
use cxx_fiber.Blocker.{Waiter, fiber, Blocker, Reply, parked, stored, resumed, no_limit}
use cxx_fiber.Blocker.Permits.{wake_up_first, wake_up_nobody, wait_fiber_first}
use cxx_fiber.Condition.{Condition, await, wake, signal, wake_each, signal_all}

module _ {Q W : Type 0} (F : Fifo Waiter Q) (G : Fifo ℕ W) where
  -- The fiber `f` sleeps on the blocker `id`, alone.
  abbrev pub Sleeps : Condition Q W → ℕ → ℕ → Type 0
  Sleeps c id f = F.to_list (c.blockers id).wait_queue ≡ fiber f ∷ []

  -- The blockers `ids` hold one sleeping fiber each, those of `fs`. It is so while there are only awaits
  -- and signals, and no longer after a `signalAll`, which leaves its blockers without their fibers.
  abbrev pub AllSleep : Condition Q W → List ℕ → List ℕ → Type 0
  AllSleep c [] [] = Unit
  AllSleep c (id ∷ ids) (f ∷ fs) = Sleeps c id f × AllSleep c ids fs
  AllSleep c _ _ = ⊥

  -- `await` puts the caller to sleep on a blocker of its own, behind the others.
  pub await-Sleeps :
      (c : Condition Q W) (f : ℕ)
      → Sleeps (await F G f c).0 c.next f
        × (G.to_list (await F G f c).0.waiters ≡ G.to_list c.waiters ++ c.next ∷ [])
        × ((await F G f c).1 ≡ parked)
  unfolding await
  await-Sleeps c f = ground (arith, wait_fiber_first F f no_limit, G.to_list-add c.waiters c.next)

  AllSleep-update :
      (c : Condition Q W) (w : W) (id : ℕ) (b : Blocker Q) (ids fs : List ℕ)
      → Fresh id ids
      → AllSleep c ids fs
      → AllSleep (record c { blockers = update c.blockers id b; waiters = w }) ids fs
  AllSleep-update c w id b [] [] n s = tt
  AllSleep-update c w id b [] (f ∷ fs) n s = s
  AllSleep-update c w id b (j ∷ ids) [] n s = s
  AllSleep-update c w id b (j ∷ ids) (f ∷ fs) n s =
      (ground arith, AllSleep-update c w id b ids fs n.1 s.1)

  -- If every blocker in the queue of the condition is a different one and has exactly the one fiber that
  -- sleeps on it, `signal` resumes the fiber of the first, which has slept longest, takes that blocker
  -- out, and the others sleep on.
  pub signal-resumes :
      (c : Condition Q W) (id f : ℕ) (ids fs : List ℕ)
      → G.to_list c.waiters ≡ id ∷ ids
      → Distinct (id ∷ ids)
      → AllSleep c (id ∷ ids) (f ∷ fs)
      → ((signal F G c).1 ≡ some (resumed (fiber f)))
        × (G.to_list (signal F G c).0.waiters ≡ ids)
        × AllSleep (signal F G c).0 ids fs
  unfolding signal
  signal-resumes c id f ids fs e d s =
      let (r, p, t) = G.poll_cons c.waiters id ids e in
      rw (p, signal)
        (
          ap some (wake_up_first F (c.blockers id) (fiber f) [] s.0).0,
          t,
          AllSleep-update c r id _ ids fs d.0 s.1,
        )

  wake_each-waiters :
      (c : Condition Q W) (ids : List ℕ)
      → ((wake_each F G ids c).0.waiters ≡ c.waiters) × ((wake_each F G ids c).0.next ≡ c.next)
  unfolding wake_each wake
  wake_each-waiters c [] = (refl, refl)
  wake_each-waiters c (id ∷ ids) = wake_each-waiters (wake F G id c).0 ids

  wake_each_ne :
      (c : Condition Q W) (j : ℕ) (ids : List ℕ)
      → Fresh j ids
      → (wake_each F G ids c).0.blockers j ≡ c.blockers j
  unfolding wake_each wake
  wake_each_ne c j [] n = refl
  wake_each_ne c j (id ∷ ids) n =
      wake_each_ne (wake F G id c).0 j ids n.1 ∙ update_ne c.blockers id j _ n.0

  wake_each-resumes :
      (c : Condition Q W) (ids fs : List ℕ)
      → Distinct ids
      → AllSleep c ids fs
      → (wake_each F G ids c).1 ≡ map (λ f. resumed (fiber f)) fs
  unfolding wake_each wake
  wake_each-resumes c [] [] d s = refl
  wake_each-resumes c [] (f ∷ fs) d s = absurd s
  wake_each-resumes c (id ∷ ids) [] d s = absurd s
  wake_each-resumes c (id ∷ ids) (f ∷ fs) d s =
      ap₂ ◌∷◌ (wake_up_first F (c.blockers id) (fiber f) [] s.0).0 (
        wake_each-resumes (wake F G id c).0 ids fs d.1
          (AllSleep-update c c.waiters id _ ids fs d.0 s.1))

  pub signal_all-resumes :
      (c : Condition Q W) (ids fs : List ℕ)
      → G.to_list c.waiters ≡ ids
      → Distinct ids
      → AllSleep c ids fs
      → ((signal_all F G c).1 ≡ map (λ f. resumed (fiber f)) fs)
        × (G.to_list (signal_all F G c).0.waiters ≡ ids)
  unfolding signal_all
  signal_all-resumes c ids fs e d s =
      rw (e, signal_all)
        (wake_each-resumes c ids fs d s, ap G.to_list (wake_each-waiters c ids).0 ∙ e)

  await_ne :
      (c : Condition Q W) (g id : ℕ) → c.next ≢ id → (await F G g c).0.blockers id ≡ c.blockers id
  unfolding await
  await_ne c g id ne = ground arith

  -- The blocker at the front has no waiter: `signal` puts its permit there, and a fiber that sleeps
  -- on another blocker sleeps on.
  signal-stale :
      (c : Condition Q W) (id j g : ℕ) (ids : List ℕ)
      → G.to_list c.waiters ≡ id ∷ ids
      → F.to_list (c.blockers id).wait_queue ≡ []
      → (c.blockers id).wakeup < (c.blockers id).limit
      → id ≢ j
      → Sleeps c j g
      → ((signal F G c).1 ≡ some stored) × Sleeps (signal F G c).0 j g
  unfolding signal wake
  signal-stale c id j g ids e empty below ne s =
      let (r, p, t) = G.poll_cons c.waiters id ids e in
      rw (p, signal)
        (
          ap some (wake_up_nobody F (c.blockers id) empty below).0,
          rw (update_ne c.blockers id j (Blocker.wake_up F (c.blockers id)).0 ne) s,
        )

  -- What `signalAll` leaves of the blocker at the front: nobody waits on it any more.
  signal_all-first :
      (c : Condition Q W) (id : ℕ) (ids : List ℕ)
      → G.to_list c.waiters ≡ id ∷ ids
      → Fresh id ids
      → (signal_all F G c).0.blockers id ≡ (Blocker.wake_up F (c.blockers id)).0
  unfolding signal_all wake_each wake
  signal_all-first c id ids e d =
      rw (e, signal_all) (wake_each_ne (wake F G id c).0 id ids d ∙ update_self c.blockers id _)

  signal_all-next : (c : Condition Q W) → (signal_all F G c).0.next ≡ c.next
  unfolding signal_all
  signal_all-next c = (wake_each-waiters c (G.to_list c.waiters)).1

  -- A `signal` after a `signalAll` is lost: it goes to a blocker that `signalAll` has left in the
  -- queue, is kept there as a permit, and the fiber that awaits now sleeps on.
  signal_after_signal_all :
      (c : Condition Q W) (id f g : ℕ) (ids fs : List ℕ)
      → G.to_list c.waiters ≡ id ∷ ids
      → Distinct (id ∷ ids)
      → id ≢ c.next
      → AllSleep c (id ∷ ids) (f ∷ fs)
      → (c.blockers id).wakeup < (c.blockers id).limit
      → let c' = (await F G g (signal_all F G c).0).0 in
        ((signal F G c').1 ≡ some stored) × Sleeps (signal F G c').0 c.next g
  signal_after_signal_all c id f g ids fs e d ne s below =
      let woken = wake_up_first F (c.blockers id) (fiber f) [] s.0 in
      signal-stale c' id c.next g (ids ++ c1.next ∷ [])
        ((await-Sleeps c1 g).1
          ∙ ap (λ l. l ++ c1.next ∷ []) (signal_all-resumes c (id ∷ ids) (f ∷ fs) e d s).1)
        (rw front woken.1) (rw front (omega (arith, woken.2, woken.3))) ne
        (rw (signal_all-next c) at ((await-Sleeps c1 g).0))
    where
      c1 : Condition Q W
      c1 = (signal_all F G c).0

      c' : Condition Q W
      c' = (await F G g c1).0

      front : c'.blockers id ≡ (Blocker.wake_up F (c.blockers id)).0
      front =
          await_ne c1 g id (λ q. ne (sym q ∙ signal_all-next c)) ∙ signal_all-first c id ids e d.0
