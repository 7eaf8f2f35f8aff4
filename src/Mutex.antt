-- ===== src/Mutex.antt =====
-- src/EFiberMutex.cpp: a lock that is a blocker with one permit and the limit one.
mod Examples
pub mod Exclusion
use cxx_fiber.Prelude.Int.{ℤ}
use cxx_fiber.Prelude.{ℕ, Bool, not, List}
use cxx_fiber.Fifo.{Fifo}
use cxx_fiber.Blocker
use cxx_fiber.Blocker.{Waiter, Blocker, Reply, Call}
use cxx_fiber.Blocker.Timed.{Removal, Waited, try_wait_for, try_wait_for_thread}

-- The methods that the class does not support throw.
pub data Unsupported : Type 0 where
  unsupported_operation : Unsupported

pub lock_interruptibly : Unsupported
lock_interruptibly = unsupported_operation

pub new_condition : Unsupported
new_condition = unsupported_operation

module _ {Q : Type 0} where
  -- `lock` in a fiber up to its yield; `park` is the rest, made by the scheduler.
  pub lock : Blocker Q → Blocker Q × Reply
  lock m = Blocker.wait_check m

  pub try_lock : Blocker Q → Blocker Q × Reply
  try_lock m = Blocker.try_wait m

  pub is_locked : Blocker Q → Bool
  is_locked m = not (Blocker.is_waking m)

module _ {Q : Type 0} (F : Fifo Waiter Q) where
  pub create : Blocker Q
  create = Blocker.create F 1 1

  pub lock_thread : Blocker Q → Blocker Q × Reply
  lock_thread m = Blocker.wait_thread F m

  pub park : ℕ → Blocker Q → Blocker Q × Reply
  park f m = Blocker.swap_out F f m

  pub unlock : Blocker Q → Blocker Q × Reply
  unlock m = Blocker.wake_up F m

  -- `tryLock` with a time limit, in a fiber and in a plain thread.
  pub try_lock_for :
      Removal F → (ℤ → ℤ) → ℕ → ℤ → (before cs : List Call) → (late : Bool) → Blocker Q → Waited Q
  try_lock_for R to_millis f time before cs late m =
      try_wait_for F R to_millis f time before cs late m

  pub try_lock_for_thread : Removal F → List Call → (late : Bool) → Blocker Q → Waited Q
  try_lock_for_thread R cs late m = try_wait_for_thread F R cs late m
