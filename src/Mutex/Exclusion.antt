-- ===== src/Mutex/Exclusion.antt =====
-- src/EFiberMutex.cpp: mutual exclusion, for any interleaving of fibers and threads.
use cxx_fiber.Prelude.{ℕ, ◌+◌, ◌-◌, ◌≤◌, ◌<◌, ◌≡◌, ◌≢◌, ◌↔◌, ◌∙◌, refl, true, List, ◌∷◌, arith}
use cxx_fiber.Fifo.{Fifo}
use cxx_fiber.Blocker
use cxx_fiber.Blocker.{
  Waiter, Blocker, Reply, Call, checks, tries, wakes, waits_thread, swaps_out, resumed,
}
use cxx_fiber.Blocker.Permits.{
  granted, Inv, create-Inv, step_balance, step-Inv, step-limit, accepted_wait, accepted_wake,
  wake_up_first,
}
use cxx_fiber.Mutex.{create, lock, try_lock, lock_thread, park, unlock, is_locked}

-- The mutex, and how many fibers and threads are between a lock and their unlock.
pub record Held (Q : Type 0) : Type 0 where
  pub mutex : Blocker Q
  pub holders : ℕ

module _ {Q : Type 0} where
  -- A reply that hands the permit to someone makes that one a holder.
  abbrev pub after : ℕ → Blocker Q × Reply → Held Q
  after n (m, r) = record { mutex = m; holders = n + granted r }

module _ {Q : Type 0} (F : Fifo Waiter Q) where
  -- Anyone may begin to lock, the scheduler parks a fiber, and only a holder unlocks.
  pub data Step (h : Held Q) : Held Q → Type 0 where
    locks : Step h (after h.holders (lock h.mutex))
    tries_lock : Step h (after h.holders (try_lock h.mutex))
    locks_thread : Step h (after h.holders (lock_thread F h.mutex))
    parks : (f : ℕ) → Step h (after h.holders (park F f h.mutex))
    unlocks : 0 < h.holders → Step h (after (h.holders - 1) (unlock F h.mutex))

  abbrev pub free : Held Q
  free = record { mutex = create F; holders = 0 }

  pub data Reach : Held Q → Type 0 where
    start : Reach free
    later : {h k : Held Q} → Reach h → Step h k → Reach k

  -- One permit, with the mutex or with a holder.
  pub record Good (h : Held Q) : Type 0 where
    pub inv : Inv F h.mutex
    pub one : h.mutex.wakeup + h.holders ≡ 1
    pub limit : h.mutex.limit ≡ 1

  wait-Good :
      (h : Held Q) (c : Call)
      → c ≢ wakes
      → Good h
      → Good (after h.holders (Blocker.step F h.mutex c))
  wait-Good h c ne g = record {
    inv = step-Inv F h.mutex c g.inv;
    one = omega (arith, step_balance F h.mutex c g.inv, accepted_wait F h.mutex c ne);
    limit = step-limit F h.mutex c ∙ g.limit;
  }

  Step-Good : {h k : Held Q} → Step h k → Good h → Good k
  unfolding lock try_lock lock_thread park unlock Blocker.step
  Step-Good {h} locks g = wait-Good h checks (λ e. cc) g
  Step-Good {h} tries_lock g = wait-Good h tries (λ e. cc) g
  Step-Good {h} locks_thread g = wait-Good h waits_thread (λ e. cc) g
  Step-Good {h} (parks f) g = wait-Good h (swaps_out f) (λ e. cc) g
  Step-Good {h} (unlocks p) g = record {
    inv = step-Inv F h.mutex wakes g.inv;
    one = omega (arith, step_balance F h.mutex wakes g.inv, accepted_wake F h.mutex (omega arith));
    limit = step-limit F h.mutex wakes ∙ g.limit;
  }

  Reach-Good : {h : Held Q} → Reach h → Good h
  unfolding create Blocker.create
  Reach-Good start = record {
    inv = create-Inv F 1 1 (omega arith) (omega arith);
    one = omega arith;
    limit = refl;
  }
  Reach-Good (later r st) = Step-Good st (Reach-Good r)

  -- From a new mutex that only holders unlock, at most one fiber or thread is ever inside, and
  -- `isLocked` says whether one is.
  pub mutual_exclusion :
      {h : Held Q} → Reach h → (h.holders ≤ 1) × ((is_locked h.mutex ≡ true) ↔ (h.holders ≡ 1))
  unfolding is_locked Blocker.is_waking
  mutual_exclusion {h} r = let g = Reach-Good r in ground arith

  -- An unlock while someone waits passes the lock on with the entry at the front of the wait queue, at
  -- once: the count of holders stays one, the other entries stay, and no permit is left for a third
  -- party. If the entry is a fiber, that fiber is resumed; if it is the monitor that all threads wait
  -- on, the monitor is notified, which says nothing of the thread that it wakes. The lock is reached
  -- from a new mutex by calls other than tryLock with a time.
  pub unlock_hands_over :
      {h : Held Q} (w : Waiter) (ws : List Waiter)
      → Reach h
      → h.holders ≡ 1
      → F.to_list h.mutex.wait_queue ≡ w ∷ ws
      → let k = after (h.holders - 1) (unlock F h.mutex) in
        ((unlock F h.mutex).1 ≡ resumed w)
        × (F.to_list k.mutex.wait_queue ≡ ws)
        × (k.holders ≡ 1)
        × (k.mutex.wakeup ≡ 0)
  unfolding unlock
  unlock_hands_over {h} w ws r one e =
      let g = Reach-Good r in let woken = wake_up_first F h.mutex w ws e in ground arith
