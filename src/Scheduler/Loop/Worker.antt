-- ===== src/Scheduler/Loop/Worker.antt =====
-- src/EContext.cpp: `fiber_worker` runs the body of a fiber until the fiber leaves its stack. The
-- loop of src/EFiberScheduler.cpp with such bodies does what the steps allow.
use cxx_fiber.Prelude.{
  ℕ, ◌&&◌, ◌<◌, ◌≡◌, refl, ◌∙◌, ◌⊎◌, inl, inr, Bool, true, false, Option, none, some, List, [], ◌∷◌,
  arith, update, update_self, if_cases, ◌==◌, if◌then◌else◌,
}
use cxx_fiber.Fifo.{Fifo}
use cxx_fiber.Blocker.{Waiter}
use cxx_fiber.Runtime.{State, waiting, terminated, Action, World, put_fiber}
use cxx_fiber.Scheduler.{act, fire}
use cxx_fiber.Scheduler.Steps.{
  Control, Listens, running, leaving, exiting, System, fires, acts, returns, advance, after, next,
}
use cxx_fiber.Scheduler.Threads.{Reach-threads}
use cxx_fiber.Scheduler.Loop.{Shared, Program}
use cxx_fiber.Scheduler.Loop.Reached.{At, Conforms}
use cxx_fiber.Scheduler.Closed.{
  IsClosed, AreClosed, act_on-program, closed_Allowed, Reach-AreClosed,
}

module _ {Q : Type 0} (F : Fifo Waiter Q) where
  -- What is left of the body of the fiber `f`, in the thread `t`.
  unfoldable pub drive : ℕ → ℕ → List Action → World Q → World Q
  drive t f [] w = put_fiber f (record (w.fibers f) { state = terminated }) w
  drive t f (a ∷ rest) w =
      let (w', left) = act F t f a (advance f rest w) in
      let went_on = drive t f rest w' in if left then w' else went_on

  unfoldable pub fiber_worker : ℕ → ℕ → World Q → World Q
  unfolding drive
  fiber_worker t f w = drive t f (w.fibers f).program w

module _ {Q : Type 0} (F : Fifo Waiter Q) (n : ℕ) (start : System Q) (t f : ℕ)
    (lt : t < start.threads) where
  -- A fiber that runs leaves its stack, with its call of the library or with the end of its body.
  drive-At :
      (body : List Action) (s : Shared Q)
      → (s.world.fibers f).program ≡ body
      → IsClosed body
      → At F n start t (running f) s
      → let s' = record s { world = drive F t f body s.world } in
        At F n start t (leaving f) s' ⊎ At F n start t (exiting f) s'
  unfolding drive
  drive-At [] s e closed (k, c, r) = inr (
    update k t (exiting f),
    update_self k t (exiting f),
    next r (returns t f (omega (arith, Reach-threads F n r)) c e),
  )
  drive-At (a ∷ rest) s e (quiet, closed) (k, c, r) =
      let w1 = advance f rest s.world in
      let (w', left) = act F t f a w1 in
      let step = next r (
        acts t f a rest (omega (arith, Reach-threads F n r)) c e
          (closed_Allowed F n s.world a quiet)) in
      if_cases
        (λ w.
          At F n start t (leaving f) (record s { world = w })
          ⊎ At F n start t (exiting f) (record s { world = w }))
        left w' (drive F t f rest w')
        (λ gone. inl (update k t (after left f), rw gone (update_self k t (leaving f)), step))
        (λ on.
          drive-At rest (record s { world = w' })
            (act_on-program F t f a w1 quiet on ∙ ground arith) closed
            (update k t (after left f), rw on (update_self k t (running f)), step))

module _ {Q : Type 0} (F : Fifo Waiter Q) where
  -- The timers of these fibers are due: `timeEventProc`, for those that wait in this thread.
  abbrev is_waiting : State → Bool
  is_waiting waiting = true
  is_waiting _ = false

  abbrev is_here : ℕ → Option ℕ → Bool
  is_here t none = false
  is_here t (some i) = i == t

  unfoldable pub fire_due : ℕ → List ℕ → World Q → World Q
  fire_due t [] w = w
  fire_due t (g ∷ gs) w =
      fire_due t gs (
        if is_waiting (w.fibers g).state && is_here t (w.fibers g).io_waiter then fire t g w else w)

  -- The loop with such bodies; which timers are due is up to the event loop.
  unfoldable pub worker_program : (ℕ → ℕ → World Q → List ℕ) → Program Q
  worker_program due = record {
    callback = none;
    body = λ t f s. record s { world = fiber_worker F t f s.world };
    events = λ t timeout s. record s { world = fire_due t (due t timeout s.world) s.world };
  }

  module _ (n : ℕ) (start : System Q) where
    fire_due-At :
        (t : ℕ) (c : Control) (gs : List ℕ) (s : Shared Q)
        → t < start.threads
        → Listens c
        → At F n start t c s
        → At F n start t c (record s { world = fire_due t gs s.world })
    unfolding fire_due
    fire_due-At t c [] s lt l h = h
    fire_due-At t c (g ∷ gs) s lt l (k, e, r) =
        if_cases (λ w. At F n start t c (record s { world = fire_due t gs w }))
          (is_waiting (s.world.fibers g).state && is_here t (s.world.fibers g).io_waiter)
          (fire t g s.world) s.world
          (λ b.
            fire_due-At t c gs (record s { world = fire t g s.world }) lt l
              (
                k,
                e,
                next r (
                    fires t g (omega (arith, Reach-threads F n r)) (rw e l) (ground arith)
                      (ground arith)),
              ))
          (λ b. fire_due-At t c gs s lt l (k, e, r))

    pub worker_program-Conforms :
        (due : ℕ → ℕ → World Q → List ℕ)
        → AreClosed F start
        → Conforms F n start (worker_program due)
    unfolding worker_program fiber_worker
    worker_program-Conforms due closed = record {
      runs = λ t f s lt (k, c, r).
          drive-At F n start t f lt (s.world.fibers f).program s refl
            (Reach-AreClosed F n r closed f) (k, c, r);
      processes = λ t timeout c s lt l h. fire_due-At t c (due t timeout s.world) s lt l h;
      tells = λ call e t p c s h. absurd (ground arith);
    }
