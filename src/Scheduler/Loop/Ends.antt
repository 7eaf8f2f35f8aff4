-- ===== src/Scheduler/Loop/Ends.antt =====
-- src/EFiberScheduler.cpp: the loop of `joinWithThreadBind` comes to its end when the fibers only
-- give way to one another.
use cxx_fiber.Prelude.{
  ℕ, zero, suc, ◌<◌, ◌≡◌, refl, ap, ◌∙◌, Bool, true, false, List, [], ◌∷◌, arith, none, some,
}
use cxx_fiber.Fifo.{Fifo}
use cxx_fiber.Blocker.{Waiter}
use cxx_fiber.Runtime.{World}
use cxx_fiber.Scheduler.{bind, bound, dispatch}
use cxx_fiber.Scheduler.Loop.{
  Thread, Program, bind_default, serve, attend, turn, join, leave, returned, process, switch_to,
  report, tell, take, enter, leave_bound, serve_bound, attend_bound, turn_bound, loop, close,
  join_with_thread_bind, ending,
}
use cxx_fiber.Scheduler.Loop.Completes.{IsQuiet, leave_bound-shared}
use cxx_fiber.Scheduler.Loop.Worker.{fiber_worker, worker_program}
use cxx_fiber.Scheduler.Loop.Brief.{Lined, Advanced, work, serve-Advanced}

module _ {Q : Type 0} (t : ℕ) (once : Thread Q → Thread Q × Bool) where
  -- A turn of the loop takes from the work of the queue, or finds it empty.
  record Serves : Type 0 where
    served :
        (f : ℕ) (rest : List ℕ) (j : Thread Q)
        → j.shared.interrupted ≡ false
        → Lined t j.shared.world (f ∷ rest)
        → (i : Thread Q) × (once j ≡ (i, true))
          × (i.shared.interrupted ≡ false)
          × Advanced t (work j.shared.world (f ∷ rest)) i.shared.world
    over :
        (j : Thread Q)
        → j.shared.interrupted ≡ false
        → Lined t j.shared.world []
        → once j ≡ (j, false)

  abbrev Over : Thread Q × Bool → Type 0
  Over (j, over) = (over ≡ true) × (j.shared.interrupted ≡ false)

  loop-Over :
      Serves
      → (fuel : ℕ) (qs : List ℕ) (j : Thread Q) → j.shared.interrupted ≡ false
      → Lined t j.shared.world qs
      → work j.shared.world qs < fuel
      → Over (loop once fuel j)
  unfolding loop
  loop-Over ok zero qs j up lined less = absurd (omega arith)
  loop-Over ok (suc fuel) [] j up lined less = rw (ok.over j up lined) (refl, up)
  loop-Over ok (suc fuel) (f ∷ rest) j up lined less =
      let (i, e, up', (qs, lined', less')) = ok.served f rest j up lined in
      rw e (loop-Over ok fuel qs i up' lined' (omega (arith, less, less')))

module _ {Q : Type 0} (F : Fifo Waiter Q) (due : ℕ → ℕ → World Q → List ℕ) (t : ℕ) where
  P : Program Q
  P = worker_program F due

  serve_bound-shared :
      (f : ℕ) (rest : List ℕ) (j : Thread Q)
      → j.shared.world.waiters t ≡ 0
      → (serve_bound F P t f rest j).shared ≡ record (j.shared) {
        world = dispatch F t f (fiber_worker F t f (bind t f (take t rest j.shared.world)));
      }
  unfolding P serve_bound switch_to report tell process worker_program take
  serve_bound-shared f rest j ws = ground arith

  turn_bound-served :
      (f : ℕ) (rest : List ℕ) (j : Thread Q)
      → j.shared.interrupted ≡ false
      → j.shared.world.queues t ≡ f ∷ rest
      → turn_bound F P t j ≡ (serve_bound F P t f rest j, true)
  unfolding turn_bound attend_bound
  turn_bound-served f rest j up q = ground arith

  turn_bound-over :
      (j : Thread Q)
      → j.shared.interrupted ≡ false
      → j.shared.world.queues t ≡ []
      → j.shared.world.total ≡ 0
      → turn_bound F P t j ≡ (j, false)
  unfolding turn_bound attend_bound
  turn_bound-over j up q n = ground arith

  turn_bound-Serves : Serves t (turn_bound F P t)
  unfolding bind take
  turn_bound-Serves = record {
    served = λ f rest j up lined.
        let w = j.shared.world in
        let same = serve_bound-shared f rest j lined.2 in
        let (qs, lined', less) =
          serve-Advanced F t f (bound t (w.fibers f)) rest w refl refl lined in
        (
          serve_bound F P t f rest j,
          turn_bound-served f rest j up lined.0,
          ap (λ s. s.interrupted) same ∙ up,
          (qs, rw same lined', rw same less),
        );
    over = λ j up lined. turn_bound-over j up lined.0 lined.1;
  }

  unquiet : IsQuiet P
  unfolding P worker_program
  unquiet call e t p s = absurd (ground arith)

  -- `joinWithThreadBind` returns, after at most one turn for each call that the bodies of the fibers of its queue
  -- still have to make, whether it yields or tries a blocker, one for each fiber, and one to find the
  -- queue empty: a fuel above the first two is enough. There is no callback, no one has interrupted
  -- the scheduler, the thread's io waiter has no waiters, the queue holds all fibers that are alive,
  -- each of them once, and their bodies only yield and try blockers.
  pub join_with_thread_bind-returns :
      (fuel : ℕ) (qs : List ℕ) (j : Thread Q)
      → j.shared.interrupted ≡ false
      → Lined t j.shared.world qs
      → work j.shared.world qs < fuel
      → (join_with_thread_bind F (worker_program F due) fuel t j).1 ≡ returned
  unfolding join_with_thread_bind P ending enter report tell worker_program
  join_with_thread_bind-returns fuel qs j up lined less =
      closed_over (loop (turn_bound F P t) fuel (enter P t j))
        (loop-Over t (turn_bound F P t) turn_bound-Serves fuel qs (enter P t j) up lined less)
    where
      closed_over :
          (l : Thread Q × Bool)
          → Over t (turn_bound F P t) l
          → (close (leave_bound P t) l).1 ≡ returned
      closed_over (i, b) (e, up') = rw e (rw ((leave_bound-shared P t unquiet i).0 ∙ up') refl)

module _ {Q : Type 0} (F : Fifo Waiter Q) (due : ℕ → ℕ → World Q → List ℕ) where
  S : Program Q
  S = worker_program F due

  serve-shared :
      (f : ℕ) (rest : List ℕ) (j : Thread Q)
      → j.shared.world.waiters 0 ≡ 0
      → (serve F S f rest j).shared ≡ record (j.shared) {
        world = dispatch F 0 f (fiber_worker F 0 f (bind_default f (take 0 rest j.shared.world)));
      }
  unfolding S serve switch_to report tell process worker_program take
  serve-shared f rest j ws = ground arith

  turn-served :
      (f : ℕ) (rest : List ℕ) (j : Thread Q)
      → j.shared.interrupted ≡ false
      → j.shared.world.queues 0 ≡ f ∷ rest
      → turn F S j ≡ (serve F S f rest j, true)
  unfolding turn attend
  turn-served f rest j up q = ground arith

  turn-over :
      (j : Thread Q)
      → j.shared.interrupted ≡ false
      → j.shared.world.queues 0 ≡ []
      → j.shared.world.total ≡ 0
      → turn F S j ≡ (j, false)
  unfolding turn attend
  turn-over j up q n = ground arith

  turn-Serves : Serves 0 (turn F S)
  unfolding bind_default take
  turn-Serves = record {
    served = λ f rest j up lined.
        let w = j.shared.world in
        let a = w.fibers f in
        let b = record a {
          bound_queue = elim a.bound_queue [ none ↦ some 0 | some q ↦ some q ];
          bound_thread = some 0;
          io_waiter = some 0;
        } in
        let same = serve-shared f rest j lined.2 in
        let (qs, lined', less) = serve-Advanced F 0 f b rest w refl refl lined in
        (
          serve F S f rest j,
          turn-served f rest j up lined.0,
          ap (λ s. s.interrupted) same ∙ up,
          (qs, rw same lined', rw same less),
        );
    over = λ j up lined. turn-over j up lined.0 lined.1;
  }

  -- `join()` returns, after at most one turn for each call that the bodies of the fibers of its queue
  -- still have to make, whether it yields or tries a blocker, one for each fiber, and one to find the
  -- queue empty: a fuel above the first two is enough. There is no callback, no one has interrupted
  -- the scheduler, the thread's io waiter has no waiters, the queue holds all fibers that are alive,
  -- each of them once, and their bodies only yield and try blockers.
  pub join-returns :
      (fuel : ℕ) (qs : List ℕ) (j : Thread Q)
      → j.shared.interrupted ≡ false
      → Lined 0 j.shared.world qs
      → work j.shared.world qs < fuel
      → (join F (worker_program F due) fuel j).1 ≡ returned
  unfolding join S ending enter leave report tell worker_program
  join-returns fuel qs j up lined less =
      closed_over (loop (turn F S) fuel (enter S 0 j))
        (loop-Over 0 (turn F S) turn-Serves fuel qs (enter S 0 j) up lined less)
    where
      closed_over : (l : Thread Q × Bool) → Over 0 (turn F S) l → (close (leave S) l).1 ≡ returned
      closed_over (i, b) (e, up') = rw e (rw up' refl)
