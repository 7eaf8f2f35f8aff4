-- ===== src/Timer/Cancel.antt =====
-- src/EFiberTimer.cpp: a timer knows the fiber that runs it by a weak pointer, and cancels it.
use cxx_fiber.Prelude.{
  ℕ, ◌≡◌, ◌≢◌, Bool, true, false, Option, none, some, arith, ltb, update, if◌then◌else◌,
}
use cxx_fiber.Runtime.{Fiber}
use cxx_fiber.Fiber

-- `EFiberTimer`.
pub record FiberTimer : Type 0 where
  pub fiber : Option ℕ

-- `setFiber`.
unfoldable pub set_fiber : ℕ → FiberTimer → FiberTimer
set_fiber f timer = record { fiber = some f }

-- `addtimer`, where the fiber that it makes is `f`: whether the fiber is scheduled.
unfoldable pub add_timer : ℕ → ℕ → FiberTimer → FiberTimer × Bool
unfolding set_fiber
add_timer f delay timer = if ltb 0 delay then (set_fiber f timer, true) else (timer, false)

-- `cancel`, in a thread that runs a scheduler or not, where the fibers `alive` still exist.
cancel_fiber : (ℕ → Bool) → Option ℕ → (ℕ → Fiber) → ℕ → Fiber
cancel_fiber alive none fibers = fibers
cancel_fiber alive (some f) fibers =
    if alive f then update fibers f (Fiber.cancel (fibers f)) else fibers

unfoldable pub cancel : Bool → (ℕ → Bool) → FiberTimer → (ℕ → Fiber) → ℕ → Fiber
unfolding cancel_fiber
cancel in_scheduler alive timer fibers =
    if in_scheduler then cancel_fiber alive timer.fiber fibers else fibers

-- Of the fibers that a timer was added with, `cancel` in a thread with a scheduler marks the last one,
-- if it still exists, and none but it; in a thread without a scheduler it does nothing.
cancel_last :
    (f g : ℕ) (d e : ℕ) (alive : ℕ → Bool) (timer : FiberTimer) (fibers : ℕ → Fiber)
    → 0 ≢ d
    → 0 ≢ e
    → f ≢ g
    → alive g ≡ true
    → let again = (add_timer g e (add_timer f d timer).0).0 in
      ((cancel true alive again fibers g).canceled ≡ true)
      × (cancel true alive again fibers f ≡ fibers f)
      × (cancel false alive again fibers ≡ fibers)
unfolding add_timer set_fiber cancel cancel_fiber Fiber.cancel
cancel_last f g d e alive timer fibers some_delay some_delay' ne up = ground arith
