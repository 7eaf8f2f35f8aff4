-- ===== src/Timer/Examples.antt =====
-- Timers of src/EFiberScheduler.cpp.
use cxx_fiber.Prelude.{◌+◌, ◌≡◌, refl, false, [], ◌∷◌, arith}
use cxx_fiber.Timer.{TimberFiber, Course, run}
use cxx_fiber.Timer.Runs.{Undisturbed, run-every}

abbrev smooth : Course
smooth = record {
  after_sleep = λ now d. now + d;
  after_run = λ t. t;
  canceled = λ t. false;
  interrupted = λ t. false;
}

abbrev seconds : TimberFiber
seconds = record { delay = 5000; period = 1000 }

smooth-Undisturbed : Undisturbed smooth
smooth-Undisturbed = record {
  exact = λ now d. refl;
  quick = λ t. refl;
  kept = λ t. refl;
  quiet = λ t. refl;
}

run-every_example : run smooth 3 seconds 100 ≡ 6100 ∷ 7100 ∷ 8100 ∷ []
run-every_example = run-every smooth smooth-Undisturbed 3 seconds 100 (omega arith)
