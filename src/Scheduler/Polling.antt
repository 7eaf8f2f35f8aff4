-- ===== src/Scheduler/Polling.antt =====
-- src/EFiberScheduler.cpp: a thread that polls its queue keeps every fiber in one place.
use cxx_fiber.Prelude.{ℕ, ◌<◌, ◌≡◌, List, ◌∷◌, arith, update}
use cxx_fiber.Prelude.Sums.{sum_below-update}
use cxx_fiber.Fifo.{Fifo}
use cxx_fiber.Blocker.{Waiter}
use cxx_fiber.Runtime.{Fiber}
use cxx_fiber.Scheduler.{bind, bound}
use cxx_fiber.Scheduler.Steps.{Control, at_head, taken, running, System}
use cxx_fiber.Scheduler.Places.{Place, queued, held, count_held, alive, exits_now, Handles, Inv}

module _ {Q : Type 0} (F : Fifo Waiter Q) (n : ℕ) (s : System Q) (place : ℕ → Place)
    (inv : Inv F n s place) where
  open inv use {queue, wait, hold, fits, handles, small, census, sound, index, choice}

  module _ (t f : ℕ) (rest : List ℕ) (lt : t < s.threads) (c : s.control t ≡ at_head)
      (e : s.queues t ≡ f ∷ rest) where
    stands : place f ≡ queued t
    stands = ground (arith, queue t f)

    below : f < n
    below = ground (arith, stands, small f)

    pub polls-Inv :
        Inv F n
          (record {
            world = record (s.world) { queues = update s.queues t rest };
            control = update s.control t (taken f);
          })
          (update place f (held t))
    polls-Inv = record {
      queue = λ q x. ground (arith, queue q x, queue t f, stands);
      wait = λ b x. ground (arith, wait b x, stands);
      hold = λ u x. ground (arith, hold u x, hold t x, stands);
      fits = λ x. ground (arith, fits x, stands);
      handles = λ u. ground (arith, handles u, fits f, stands, hold u f);
      small = λ x h. ground (arith, small x h, below);
      census = ground (
        arith,
        census,
        fits f,
        stands,
        sum_below-update exits_now s.threads s.control t (taken f) lt,
      );
      sound = sound;
      index = index;
      choice = choice;
    }

  module _ (t f : ℕ) (lt : t < s.threads) (c : s.control t ≡ taken f) where
    holds : place f ≡ held t
    holds = ground (arith, hold t f)

    pub binds-Inv :
        Inv F n
          (record { world = bind t f s.world; control = update s.control t (running f) })
          place
    unfolding bind
    binds-Inv = record {
      queue = queue;
      wait = wait;
      hold = λ u x. ground (arith, hold u x, hold t x);
      fits = λ x. ground (arith, fits x, holds);
      handles = λ u. ground (arith, handles u, handles t, holds, hold u f);
      small = small;
      census = ground (
        arith,
        census,
        handles t,
        holds,
        small f,
        sum_below-update (λ (a : Fiber). alive a.state) n s.fibers f (bound t (s.fibers f)),
        sum_below-update exits_now s.threads s.control t (running f) lt,
      );
      sound = sound;
      index = λ x. ground (arith, index x);
      choice = choice;
    }

  -- A thread with no fiber in its hands goes on with none.
  module _ (t : ℕ) (c c' : Control) (e : s.control t ≡ c)
      (empty : (x : ℕ) → (count_held x c ≡ 0) × (count_held x c' ≡ 0))
      (stays : (exits_now c ≡ 0) × (exits_now c' ≡ 0)) (idle : Handles t c' s.fibers) where
    pub moves-Inv : t < s.threads → Inv F n (record s { control = update s.control t c' }) place
    moves-Inv lt = record {
      queue = queue;
      wait = wait;
      hold = λ u x. ground (arith, hold u x, empty x);
      fits = fits;
      handles = λ u. ground (arith, handles u);
      small = small;
      census = ground (arith, census, sum_below-update exits_now s.threads s.control t c' lt);
      sound = sound;
      index = index;
      choice = choice;
    }
