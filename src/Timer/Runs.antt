-- ===== src/Timer/Runs.antt =====
-- When a timer of src/EFiberScheduler.cpp runs.
use cxx_fiber.Prelude.{
  ℕ, zero, suc, ◌+◌, ◌≤◌, ◌<◌, ◌≡◌, refl, ap, arith, Bool, true, false, ltb, List, [], ◌∷◌,
  Bool-cases, inl, inr,
}
use cxx_fiber.Timer.{TimberFiber, Course, sleep, repeat, run}

-- Nobody cancels or interrupts, the sleeps last as long as they should, and the runs take no time.
pub record Undisturbed (c : Course) : Type 0 where
  pub exact : (now d : ℕ) → c.after_sleep now d ≡ now + d
  pub quick : (t : ℕ) → c.after_run t ≡ t
  pub kept : (t : ℕ) → c.canceled t ≡ false
  pub quiet : (t : ℕ) → c.interrupted t ≡ false

-- The times one period apart, the first one period after `now`.
abbrev pub every : ℕ → ℕ → ℕ → List ℕ
every zero period now = []
every (suc n) period now = (now + period) ∷ every n period (now + period)

-- Runs of which none but the last is at a time at which the timer is canceled.
abbrev pub LastIfCanceled : (ℕ → Bool) → List ℕ → Type 0
LastIfCanceled canceled [] = Unit
LastIfCanceled canceled (t ∷ ts) = (canceled t ≡ true → ts ≡ []) × LastIfCanceled canceled ts

module _ (c : Course) where
  repeat-every : (u : Undisturbed c) (n period now : ℕ) → repeat c n period now ≡ every n period now
  unfolding repeat sleep
  repeat-every u zero period now = refl
  repeat-every u (suc n) period now =
      rw (u.kept now, u.exact now period, u.quiet (now + period), u.quick (now + period))
        (ap (λ l. (now + period) ∷ l) (repeat-every u n period (now + period)))

  -- An undisturbed timer with a period runs for the first time when its delay and one period more
  -- have passed, and then once in a period.
  pub run-every :
      Undisturbed c
      → (n : ℕ) (f : TimberFiber) (start : ℕ) → 0 < f.period
      → run c n f start ≡ every n f.period (start + f.delay)
  unfolding run sleep
  run-every u n f start periodic =
      let some_period : ltb 0 f.period ≡ true = ground arith in
      rw (run, u.exact start f.delay, u.quiet (start + f.delay), some_period)
        (repeat-every u n f.period (start + f.delay))

  -- Once canceled, it stays so, and no run of the timer goes back in time.
  module _ (stays : (s t : ℕ) → s ≤ t → c.canceled s ≡ true → c.canceled t ≡ true)
      (forward : (t : ℕ) → t ≤ c.after_run t) where
    repeat_canceled : (n period now : ℕ) → c.canceled now ≡ true → repeat c n period now ≡ []
    unfolding repeat
    repeat_canceled zero period now e = refl
    repeat_canceled (suc n) period now e = rw e refl

    repeat_last : (n period now : ℕ) → LastIfCanceled c.canceled (repeat c n period now)
    unfolding repeat sleep
    repeat_last zero period now = tt
    repeat_last (suc n) period now = elim (Bool-cases (c.canceled now)) [
      | inl over ↦ rw over tt
      | inr live ↦
          let t = c.after_sleep now period in
          elim (Bool-cases (c.interrupted t)) [
            | inl stop ↦ rw (live, stop) tt
            | inr quiet ↦
                rw (live, quiet)
                  (
                    λ e.
                        repeat_canceled n period (c.after_run t)
                          (stays t (c.after_run t) (forward t) e),
                    repeat_last n period (c.after_run t),
                  )
          ]
    ]

    -- A timer that has been canceled runs once more at most: any run at a time at which it is canceled
    -- is the last.
    run_last : (n : ℕ) (f : TimberFiber) (start : ℕ) → LastIfCanceled c.canceled (run c n f start)
    unfolding run sleep
    run_last n f start =
        let t = c.after_sleep start f.delay in
        elim (Bool-cases (c.interrupted t)) [
          | inl stop ↦ rw (run, stop) tt
          | inr quiet ↦ elim (Bool-cases (ltb 0 f.period)) [
            | inl periodic ↦ rw (run, quiet, periodic) (repeat_last n f.period t)
            | inr once ↦ elim (Bool-cases (c.canceled t)) [
              | inl over ↦ rw (run, quiet, once, over) tt
              | inr live ↦ rw (run, quiet, once, live) (λ e. refl, tt)
            ]
          ]
        ]
