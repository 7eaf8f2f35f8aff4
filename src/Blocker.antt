-- ===== src/Blocker.antt =====
-- src/EFiberBlocker.cpp, inc/EFiberBlocker.hh: a counting semaphore on which fibers and threads wait.
-- What a call does to the fiber that it parks or resumes is in Runtime; here is what it does to
-- the blocker, each critical section under `sync_` being one function.
pub mod Permits
pub mod Timed
mod Examples
use cxx_fiber.Prelude.{
  ℕ, ◌+◌, ◌-◌, ◌%◌, ◌^◌, Bool, none, some, List, [], ◌∷◌, ltb, leb, ◌==◌, if◌then◌else◌,
}
use cxx_fiber.Fifo.{Fifo}

-- An entry of `waitQueue`. All threads add the one object `sync_` of the blocker, on whose monitor
-- they wait: which of them an entry stands for, and which one `notify` wakes, is not said.
pub data Waiter : Type 0 where
  thread : Waiter
  fiber : ℕ → Waiter

pub record Blocker (Q : Type 0) : Type 0 where
  pub wakeup : ℕ  -- uint
  pub limit : ℕ  -- uint
  pub wait_queue : Q

-- The default `limit` of the constructor is -1, as an unsigned int.
abbrev pub no_limit : ℕ
no_limit = 2 ^ 32 - 1

-- What a critical section decides.
pub data Reply : Type 0 where
  passed : Reply  -- a permit was there and is used up
  parked : Reply  -- the caller stands in the wait queue, or is about to
  denied : Reply  -- `tryWait` returns false
  stored : Reply  -- `wakeUp` keeps the permit for later
  refused : Reply  -- `wakeUp` returns false, at the limit
  resumed : Waiter → Reply  -- `wakeUp` hands the permit to this fiber, or notifies `sync_`

module _ {Q : Type 0} where
  -- The section that `wait` and the timed `tryWait` begin with in a fiber: a permit is used up, or
  -- the fiber is marked blocked. It joins the wait queue later, in `swap_out`.
  unfoldable pub wait_check : Blocker Q → Blocker Q × Reply
  wait_check b =
      if ltb 0 b.wakeup then (record b { wakeup = b.wakeup - 1 }, passed) else (b, parked)

  pub try_wait : Blocker Q → Blocker Q × Reply
  try_wait b = if b.wakeup == 0 then (b, denied) else (record b { wakeup = b.wakeup - 1 }, passed)

  unfoldable pub is_waking : Blocker Q → Bool
  is_waking b = ltb 0 b.wakeup

module _ {Q : Type 0} (F : Fifo Waiter Q) where
  unfoldable pub create : ℕ → ℕ → Blocker Q
  create capacity limit = record { wakeup = capacity; limit = limit; wait_queue = F.empty }

  -- `wait` in a plain thread.
  unfoldable pub wait_thread : Blocker Q → Blocker Q × Reply
  wait_thread b =
      if ltb 0 b.wakeup
      then (record b { wakeup = b.wakeup - 1 }, passed)
      else (record b { wait_queue = F.add b.wait_queue thread }, parked)

  -- Called by the scheduler when the fiber has left its stack. `passed` is the result false, and
  -- `parked` the result true.
  unfoldable pub swap_out : ℕ → Blocker Q → Blocker Q × Reply
  swap_out f b =
      if ltb 0 b.wakeup
      then (record b { wakeup = b.wakeup - 1 }, passed)
      else (record b { wait_queue = F.add b.wait_queue (fiber f) }, parked)

  -- `wait` in a fiber that nobody comes between: the check, and after the yield the scheduler's
  -- `swap_out`.
  unfoldable pub wait_fiber : ℕ → Blocker Q → Blocker Q × Reply
  wait_fiber f b =
      if ltb 0 b.wakeup then (record b { wakeup = b.wakeup - 1 }, passed) else swap_out f b

  store : Blocker Q → Blocker Q × Reply
  store b =
      if leb b.limit b.wakeup
      then (b, refused)
      else (record b { wakeup = (b.wakeup + 1) % 2 ^ 32 }, stored)

  -- `wakeUp`, whose result is false for `refused` and true otherwise.
  unfoldable pub wake_up : Blocker Q → Blocker Q × Reply
  unfolding store
  wake_up b = elim (F.poll b.wait_queue) [
    | none ↦ store b
    | some (w, rest) ↦ (record b { wait_queue = rest }, resumed w)
  ]

-- A call of the blocker, by a fiber, a thread or the scheduler.
pub data Call : Type 0 where
  checks tries wakes waits_thread : Call
  swaps_out : ℕ → Call

module _ {Q : Type 0} (F : Fifo Waiter Q) where
  unfoldable pub step : Blocker Q → Call → Blocker Q × Reply
  step b checks = wait_check b
  step b tries = try_wait b
  step b wakes = wake_up F b
  step b waits_thread = wait_thread F b
  step b (swaps_out f) = swap_out F f b

  pub run : Blocker Q → List Call → Blocker Q × List Reply
  run b [] = (b, [])
  run b (c ∷ cs) = let (b', r) = step b c in let (b'', rs) = run b' cs in (b'', r ∷ rs)
