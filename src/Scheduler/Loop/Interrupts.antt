-- ===== src/Scheduler/Loop/Interrupts.antt =====
-- src/EFiberScheduler.cpp: `interrupt`, and how the loops end after it.
use cxx_fiber.Prelude.{
  ℕ, zero, suc, ◌+◌, ◌<◌, ◌≡◌, refl, ap, ◌∙◌, Bool, true, false, Option, some, none, ltb, ◌==◌,
  if◌then◌else◌, arith,
}
use cxx_fiber.Fifo.{Fifo}
use cxx_fiber.Blocker.{Waiter}
use cxx_fiber.Runtime.{World}
use cxx_fiber.Scheduler.Loop.{
  Phase, schedule_after, Shared, Program, Thread, Ending, thrown, report, tell, enter, leave,
  leave_bound, ending, turn, turn_bound, loop, close, join, join_with_thread_bind, wake_waiters,
  interrupt, signal_all, signal_others,
}

-- The flag is private to the scheduler, and nothing takes it back: the callback leaves it set.
abbrev pub Latches : {Q : Type 0} → Option (ℕ → Phase → Shared Q → Shared Q) → Type 0
Latches none = Unit
Latches {Q} (some c) =
    (t : ℕ) (p : Phase) (s : Shared Q) → s.interrupted ≡ true → (c t p s).interrupted ≡ true

module _ {Q : Type 0} where
  -- `x` is the first of the turns.
  step_more :
      (once : Thread Q → Thread Q × Bool) (k n : ℕ) (x : Thread Q × Bool)
      → (if x.1 then loop once k x.0 else (x.0, true)).1 ≡ false
      → ((loop once k x.0).1 ≡ false → loop once (k + n) x.0 ≡ loop once n (loop once k x.0).0)
      → (if x.1 then loop once (k + n) x.0 else (x.0, true))
        ≡ loop once n (if x.1 then loop once k x.0 else (x.0, true)).0
  step_more once k n (j, true) going more = more going
  step_more once k n (j, false) going more = absurd (ground (arith, going))

  loop_more :
      (once : Thread Q → Thread Q × Bool) (k n : ℕ) (j : Thread Q)
      → (loop once k j).1 ≡ false
      → loop once (k + n) j ≡ loop once n (loop once k j).0
  unfolding loop
  loop_more once zero n j going = ap (λ m. loop once m j) (omega arith)
  loop_more once (suc k) n j going =
      let grows : suc k + n ≡ suc (k + n) = omega arith in
      ap (λ m. loop once m j) grows
      ∙ step_more once k n (once j) going (λ h. loop_more once k n (once j).0 h)

  -- A loop that is still going after `k` turns, and then does nothing, has ended.
  loop_ends :
      (once : Thread Q → Thread Q × Bool) (k n : ℕ) (j : Thread Q)
      → (loop once k j).1 ≡ false
      → once (loop once k j).0 ≡ ((loop once k j).0, false)
      → loop once (k + suc n) j ≡ ((loop once k j).0, true)
  unfolding loop
  loop_ends once k n j going stops = loop_more once k (suc n) j going ∙ rw stops refl

  tell-Latches :
      (c : Option (ℕ → Phase → Shared Q → Shared Q)) (t : ℕ) (p : Phase) (j : Thread Q)
      → Latches c
      → j.shared.interrupted ≡ true
      → (tell c t p j).shared.interrupted ≡ true
  unfolding tell
  tell-Latches none t p j latches set = set
  tell-Latches (some c) t p j latches set = latches t p j.shared set

  ending_thrown : (j : Thread Q) → j.shared.interrupted ≡ true → ending j ≡ thrown
  unfolding ending
  ending_thrown j set = ground arith

  leave-thrown :
      (P : Program Q) (j : Thread Q)
      → Latches P.callback
      → j.shared.interrupted ≡ true
      → ending (leave P j) ≡ thrown
  unfolding leave report
  leave-thrown P j latches set =
      ending_thrown (leave P j) (tell-Latches P.callback 0 schedule_after _ latches set)

  leave_bound-thrown :
      (P : Program Q) (t : ℕ) (j : Thread Q)
      → Latches P.callback
      → j.shared.interrupted ≡ true
      → ending (leave_bound P t j) ≡ thrown
  unfolding leave_bound report
  leave_bound-thrown P t j latches set =
      ending_thrown (leave_bound P t j) (tell-Latches P.callback t schedule_after _ latches set)

module _ {Q : Type 0} (F : Fifo Waiter Q) (P : Program Q) where
  turn_stops : (j : Thread Q) → j.shared.interrupted ≡ true → turn F P j ≡ (j, false)
  unfolding turn
  turn_stops j set = ground arith

  turn_bound_stops :
      (t : ℕ) (j : Thread Q) → j.shared.interrupted ≡ true → turn_bound F P t j ≡ (j, false)
  unfolding turn_bound
  turn_bound_stops t j set = ground arith

  -- Once a thread of `join(threads)` finds the interruption at the head of its loop, after any
  -- number of turns, it runs no other fiber and waits for no event: it cleans up and throws. The
  -- callback is not to take the interruption back.
  pub join_with_thread_bind-interrupted :
      (k n t : ℕ) (j : Thread Q)
      → Latches P.callback
      → (loop (turn_bound F P t) k (enter P t j)).1 ≡ false
      → (loop (turn_bound F P t) k (enter P t j)).0.shared.interrupted ≡ true
      → join_with_thread_bind F P (k + suc n) t j
        ≡ (leave_bound P t (loop (turn_bound F P t) k (enter P t j)).0, thrown)
  unfolding join_with_thread_bind
  join_with_thread_bind-interrupted k n t j latches going set =
      let last = (loop (turn_bound F P t) k (enter P t j)).0 in
      ap (close (leave_bound P t))
        (loop_ends (turn_bound F P t) k n (enter P t j) going (turn_bound_stops t last set))
      ∙ ap (λ (e : Ending). (leave_bound P t last, e)) (leave_bound-thrown P t last latches set)

  -- The same of `join()`.
  join-interrupted :
      (k n : ℕ) (j : Thread Q)
      → Latches P.callback
      → (loop (turn F P) k (enter P 0 j)).1 ≡ false
      → (loop (turn F P) k (enter P 0 j)).0.shared.interrupted ≡ true
      → join F P (k + suc n) j ≡ (leave P (loop (turn F P) k (enter P 0 j)).0, thrown)
  unfolding join
  join-interrupted k n j latches going set =
      let last = (loop (turn F P) k (enter P 0 j)).0 in
      ap (close (leave P)) (loop_ends (turn F P) k n (enter P 0 j) going (turn_stops last set))
      ∙ ap (λ (e : Ending). (leave P last, e)) (leave-thrown P last latches set)

-- Which io waiters get a byte.
module _ {Q : Type 0} (fire_all : ℕ → World Q → World Q)
    (keeps : (i : ℕ) (w : World Q) → (fire_all i w).signals ≡ w.signals) where
  signal_all-signals :
      (k i : ℕ) (w : World Q)
      → (signal_all fire_all k w).signals i ≡ (if ltb i k then w.signals i + 1 else w.signals i)
  unfolding signal_all
  signal_all-signals zero i w = ground arith
  signal_all-signals (suc k) i w =
      let v = signal_all fire_all k w in
      ground (
        arith,
        signal_all-signals k i w,
        ap (λ (s : ℕ → ℕ). s i) (keeps k v),
        ap (λ (s : ℕ → ℕ). s k) (keeps k v),
      )

  wake_waiters_many :
      (caller : Option ℕ) (w : World Q)
      → 1 < w.threads
      → w.stubs ≡ true
      → wake_waiters fire_all caller w ≡ signal_all fire_all w.threads w
  unfolding wake_waiters
  wake_waiters_many caller w many made = ground arith

  signal_others-signals :
      (t k i : ℕ) (w : World Q)
      → (signal_others t k w).signals i
        ≡ (if ltb i k then (if i == t then w.signals i else w.signals i + 1) else w.signals i)
  unfolding signal_others
  signal_others-signals t zero i w = ground arith
  signal_others-signals t (suc k) i w = ground (arith, signal_others-signals t k i w)

  -- `interrupt` with several threads, whichever thread calls it, sets the flag and writes one byte to
  -- the pipe of every thread's io waiter; a thread that leaves its loop writes one to each but its
  -- own. That all timers fall due writes to no pipe.
  interrupt-signals :
      (caller : Option ℕ) (s : Shared Q) (t i : ℕ)
      → 1 < s.world.threads
      → s.world.stubs ≡ true
      → i < s.world.threads
      → ((interrupt fire_all caller s).interrupted ≡ true)
        × ((interrupt fire_all caller s).world.signals i ≡ s.world.signals i + 1)
        × ((signal_others t s.world.threads s.world).signals i
            ≡ (if i == t then s.world.signals i else s.world.signals i + 1))
  unfolding interrupt
  interrupt-signals caller s t i many made below =
      let n = s.world.threads in
      let inside : ltb i n ≡ true = ground arith in
      (
        refl,
        ap (λ w. w.signals i) (wake_waiters_many caller s.world many made)
            ∙ signal_all-signals n i s.world
            ∙ rw inside refl,
        signal_others-signals t n i s.world ∙ rw inside refl,
      )
