-- ===== src/ConcurrentQueue/Examples.antt =====
-- Runs of the queue of inc/EFiberUtil.hh.
use cxx_fiber.Prelude.{suc, ◌≡◌, refl, none, some, List, [], ◌∷◌, arith}
use cxx_fiber.ConcurrentQueue.{Store, create, add, poll, empty, got, Call, adds, polls, step, run}
use cxx_fiber.ConcurrentQueue.Refines.{
  Holds, create-Holds, spec_step, spec_run, AllAllowed, run-refines,
}

-- Fiber `n` lends the node at `n + 1`, and the dummy is at 0.
abbrev fresh_queue : Store
fresh_queue = create suc 0

abbrev calls : List Call
calls = adds 4 ∷ adds 7 ∷ polls ∷ adds 4 ∷ polls ∷ polls ∷ polls ∷ []

-- Fiber 4 comes back after it has left, in another node.
calls-run :
    (run fresh_queue calls).1
    ≡ none ∷ none ∷ some (got 4) ∷ none ∷ some (got 7) ∷ some (got 4) ∷ some empty ∷ []
unfolding run step add poll create
calls-run = refl

fresh_queue-Holds : Holds fresh_queue []
fresh_queue-Holds = create-Holds suc 0 (λ v w e. omega arith) (λ v e. omega arith)

run-refines_example :
    ((run fresh_queue calls).1 ≡ (spec_run [] calls).1)
    × Holds (run fresh_queue calls).0 (spec_run [] calls).0
unfolding AllAllowed spec_step
run-refines_example = run-refines fresh_queue [] calls fresh_queue-Holds (omega arith)
