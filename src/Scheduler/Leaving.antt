-- ===== src/Scheduler/Leaving.antt =====
-- src/EFiberScheduler.cpp, src/EContext.cpp: a fiber that comes back from its stack keeps its one
-- place, whatever its state.
use cxx_fiber.Prelude.{
  ℕ, ◌-◌, ◌<◌, ◌≡◌, refl, ◌≢◌, inl, inr, Option, none, some, [], ◌∷◌, ◌++◌, arith, update, sym, ◌∙◌,
}
use cxx_fiber.Prelude.Sums.{sum_below-update}
use cxx_fiber.Fifo.{Fifo}
use cxx_fiber.Blocker
use cxx_fiber.Blocker.{Waiter, fiber, Blocker, Reply, parked, passed}
use cxx_fiber.Blocker.Permits.{swap_out_cases}
use cxx_fiber.Runtime.{
  State, new, runnable, blocked, waiting, terminated, Fiber, World, put_fiber, enqueue, put_blocker,
}
use cxx_fiber.Scheduler.{dispatch, park}
use cxx_fiber.Scheduler.Steps.{at_head, running, leaving, exiting, System}
use cxx_fiber.Scheduler.Places.{
  Place, dead, queued, held, parked_on, napping, count_append, count_held, count_waiters_append,
  alive, exits_now, Ready, Inv,
}

module _ {Q : Type 0} (F : Fifo Waiter Q) (n : ℕ) (s : System Q) (place : ℕ → Place)
    (inv : Inv F n s place) where
  open inv use {queue, wait, hold, fits, handles, small, census, sound, index, choice}

  module _ (t f : ℕ) (lt : t < s.threads) (h : count_held f (s.control t) ≡ 1) where
    stands : place f ≡ held t
    stands = ground (arith, hold t f)

    pub below : f < n
    below = ground (arith, stands, small f)

    abbrev pub home : World Q → System Q
    home w = record { world = w; control = update s.control t at_head }

    pub returns-Inv :
        s.control t ≡ running f
        → Inv F n
            (record {
              world = put_fiber f (record (s.fibers f) { state = terminated }) s.world;
              control = update s.control t (exiting f);
            })
            place
    returns-Inv c = record {
      queue = queue;
      wait = wait;
      hold = λ u x. ground (arith, hold u x, hold t x, stands);
      fits = λ x. ground (arith, fits x, stands, handles t);
      handles = λ u. ground (arith, handles u, stands, hold u f);
      small = small;
      census = ground (
        arith,
        census,
        handles t,
        sum_below-update (λ (a : Fiber). alive a.state) n s.fibers f
            (record (s.fibers f) { state = terminated }) below,
        sum_below-update exits_now s.threads s.control t (exiting f) lt,
      );
      sound = sound;
      index = λ x. ground (arith, index x);
      choice = choice;
    }

    -- A runnable fiber goes to the end of the thread's queue, and a blocked one too if its blocker
    -- has a permit by now.
    requeue-Inv :
        s.control t ≡ leaving f
        → Ready (s.fibers f)
        → (bs : ℕ → Blocker Q)
        → ((d : ℕ) → F.to_list (bs d).wait_queue ≡ F.to_list (s.blockers d).wait_queue)
        → Inv F n
            (home (enqueue t f (record (s.world) { blockers = bs })))
            (update place f (queued t))
    requeue-Inv c ready bs same = record {
      queue =
          λ q x. ground (arith, queue q x, queue t x, stands, count_append x (s.queues t) (f ∷ []));
      wait = λ d x. ground (arith, wait d x, stands, same d);
      hold = λ u x. ground (arith, hold u x, hold t x, stands);
      fits = λ x. ground (arith, fits x, stands, handles t);
      handles = λ u. ground (arith, handles u, stands, hold u f);
      small = λ x k. ground (arith, small x k, below);
      census = ground (arith, census, sum_below-update exits_now s.threads s.control t at_head lt);
      sound = sound;
      index = index;
      choice = choice;
    }

    park-Inv :
        s.control t ≡ leaving f
        → (s.fibers f).state ≡ blocked
        → (b : ℕ) (b' : Blocker Q)
        → F.to_list b'.wait_queue ≡ F.to_list (s.blockers b).wait_queue ++ fiber f ∷ []
        → Inv F n (home (put_blocker b b' s.world)) (update place f (parked_on b))
    park-Inv c st b b' same = record {
      queue = λ q x. ground (arith, queue q x, stands);
      wait = λ d x. ground (
        arith,
        wait d x,
        wait b x,
        stands,
        same,
        count_waiters_append x (F.to_list (s.blockers b).wait_queue) (fiber f ∷ []),
      );
      hold = λ u x. ground (arith, hold u x, hold t x, stands);
      fits = λ x. ground (arith, fits x, stands, handles t);
      handles = λ u. ground (arith, handles u, stands, hold u f);
      small = λ x k. ground (arith, small x k, below);
      census = ground (arith, census, sum_below-update exits_now s.threads s.control t at_head lt);
      sound = sound;
      index = index;
      choice = choice;
    }

    -- A fiber that waits for its timer is left alone, and one that has ended is counted out.
    nap-Inv :
        s.control t ≡ leaving f
        → (s.fibers f).state ≡ waiting
        → Inv F n (home s.world) (update place f (napping t))
    nap-Inv c st = record {
      queue = λ q x. ground (arith, queue q x, stands);
      wait = λ d x. ground (arith, wait d x, stands);
      hold = λ u x. ground (arith, hold u x, hold t x, stands);
      fits = λ x. ground (arith, fits x, stands, handles t);
      handles = λ u. ground (arith, handles u, stands, hold u f);
      small = λ x k. ground (arith, small x k, below);
      census = ground (arith, census, sum_below-update exits_now s.threads s.control t at_head lt);
      sound = sound;
      index = index;
      choice = choice;
    }

    dispose-Inv :
        s.control t ≡ exiting f
        → Inv F n (home (record (s.world) { total = s.total - 1 })) (update place f dead)
    dispose-Inv c = record {
      queue = λ q x. ground (arith, queue q x, stands);
      wait = λ d x. ground (arith, wait d x, stands);
      hold = λ u x. ground (arith, hold u x, hold t x, stands);
      fits = λ x. ground (arith, fits x, stands, handles t);
      handles = λ u. ground (arith, handles u, stands, hold u f);
      small = λ x k. ground (arith, small x k, below);
      census = ground (arith, census, sum_below-update exits_now s.threads s.control t at_head lt);
      sound = sound;
      index = index;
      choice = choice;
    }

    abbrev pub Home : World Q → Type 0
    Home w = (p : ℕ → Place) × Inv F n (home w) p

    park_cases :
        s.control t ≡ leaving f
        → (s.fibers f).state ≡ blocked
        → (b : Option ℕ) → (s.fibers f).blocker ≡ b
        → b ≢ none
        → Home (park F t f b s.world)
    unfolding park
    park_cases c st none eb some_blocker = absurd (some_blocker refl)
    park_cases c st (some b) eb some_blocker = elim (swap_out_cases F f (s.blockers b)) [
      | inl (e, same) ↦
          rw (e, park)
            (
              update place f (queued t),
              requeue-Inv c (inr (st, some_blocker'))
                  (update s.blockers b (Blocker.swap_out F f (s.blockers b)).0)
                  (λ d. ground (arith, same)),
            )
      | inr (e, same) ↦ rw (e, park) (update place f (parked_on b), park-Inv c st b _ same)
    ]
      where
        some_blocker' : (s.fibers f).blocker ≢ none
        some_blocker' q = some_blocker (sym eb ∙ q)

    pub dispatch_leaving :
        s.control t ≡ leaving f
        → (k : State) → (s.fibers f).state ≡ k
        → Home (dispatch F t f s.world)
    unfolding dispatch
    dispatch_leaving c runnable e =
        rw (e, dispatch) (update place f (queued t), requeue-Inv c (inl e) s.blockers (λ d. refl))
    dispatch_leaving c blocked e =
        rw (e, dispatch) (park_cases c e (s.fibers f).blocker refl (ground (arith, handles t)))
    dispatch_leaving c waiting e = rw (e, dispatch) (update place f (napping t), nap-Inv c e)
    dispatch_leaving c new e = absurd (ground (arith, handles t))
    dispatch_leaving c terminated e = absurd (ground (arith, handles t))

    pub dispatch_exiting : s.control t ≡ exiting f → Home (dispatch F t f s.world)
    unfolding dispatch
    dispatch_exiting c =
        let e : (s.fibers f).state ≡ terminated = ground (arith, handles t) in
        rw (e, dispatch) (update place f dead, dispose-Inv c)
