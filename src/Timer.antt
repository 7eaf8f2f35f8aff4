-- ===== src/Timer.antt =====
-- The timers of src/EFiberScheduler.cpp and src/EFiberTimer.cpp: the fiber that runs a timer, with the
-- times at which it does.
pub mod Runs
pub mod Cancel
mod Examples
use cxx_fiber.Prelude.{
  ℕ, zero, suc, ◌+◌, ◌-◌, Bool, true, false, not, ◌||◌, ltb, Option, none, some, List, [], ◌∷◌,
  if◌then◌else◌,
}

-- `TimberFiber`, a period of 0 being that of its first constructor.
pub record TimberFiber : Type 0 where
  pub delay : ℕ
  pub period : ℕ

-- `addtimer` with a delay: no fiber is made for a delay of 0.
unfoldable pub addtimer : ℕ → ℕ → Option TimberFiber
addtimer delay period =
    if ltb 0 delay then some (record { delay = delay; period = period }) else none

-- `addtimer` with a date, `now` being the time of the call.
unfoldable pub addtimer_at : ℕ → ℕ → ℕ → Option TimberFiber
unfolding addtimer
addtimer_at now first_time period = addtimer (first_time - now) period

-- What the fiber meets, by time: when a sleep is over that begins at some time, when a run of the timer
-- returns, whether it is canceled, and whether the scheduler is interrupted.
pub record Course : Type 0 where
  pub after_sleep : ℕ → ℕ → ℕ
  pub after_run : ℕ → ℕ
  pub canceled : ℕ → Bool
  pub interrupted : ℕ → Bool

module _ (c : Course) where
  -- `EFiber::sleep` from a time on: the time after it, or its exception.
  pub sleep : ℕ → ℕ → Option ℕ
  sleep now millis = let t = c.after_sleep now millis in if c.interrupted t then none else some t

  -- The loop of `run`, for so many rounds at most, as the times at which the timer runs.
  pub repeat : ℕ → ℕ → ℕ → List ℕ
  unfolding sleep
  repeat zero period now = []
  repeat (suc n) period now =
      if c.canceled now
      then []
      else elim (sleep now period) [ none ↦ [] | some t ↦ t ∷ repeat n period (c.after_run t) ]

  -- `run`, begun at a time.
  pub run : ℕ → TimberFiber → ℕ → List ℕ
  unfolding sleep repeat
  run n f start = elim (sleep start f.delay) [
    | none ↦ []
    | some t ↦ if ltb 0 f.period then repeat n f.period t else if c.canceled t then [] else t ∷ []
  ]
