-- ===== src/ConcurrentQueue/Interleaved/Examples.antt =====
-- Interleaved calls of the queue of inc/EFiberUtil.hh.
use cxx_fiber.Prelude.{ℕ, ◌+◌, ◌≡◌, ◌≢◌, refl, some, none, List, [], ◌∷◌, arith}
use cxx_fiber.ConcurrentQueue.{adds, polls, got}
use cxx_fiber.ConcurrentQueue.Interleaved.{
  Shared, Effect, Run, start, prepares, locks_tail, links, unlocks_tail, locks_head, finds, takes,
  recycles, stays, quiet, takes_effect,
}
use cxx_fiber.ConcurrentQueue.Interleaved.Linear.{Linear, interleaved-Linear}

abbrev packing : ℕ → ℕ
packing v = v + 1

packing-own : (v w : ℕ) → packing v ≡ packing w → v ≡ w
packing-own v w e = omega (arith, e)

packing-spare : (v : ℕ) → packing v ≢ 0
packing-spare v e = absurd (omega (arith, e))

abbrev effects : List Effect
effects = (adds 3, none) ∷ (polls, some (got 3)) ∷ []

-- The fiber is taken out while the call that has added it still holds its lock.
abbrev overlapping : (t : Shared) × Run (start packing 0) effects t
unfolding start
overlapping = (
  _,
  quiet (prepares 3 refl) (
      quiet (locks_tail 3 4 refl refl) (
        takes_effect (links 3 4 refl refl) (
          quiet (locks_head refl) (
            quiet (finds 4 refl refl) (
              takes_effect (takes 4 3 refl refl)
                (quiet (unlocks_tail 4 refl) (quiet (recycles 3 0 refl) stays))))))),
)

interleaved-Linear_example : Linear [] effects overlapping.0
interleaved-Linear_example =
    interleaved-Linear packing 0 effects overlapping.0 packing-own packing-spare overlapping.1
