-- ===== src/Condition.antt =====
-- src/EFiberCondition.cpp: a condition variable, a queue of blockers with one waiter each.
mod Examples
pub mod Signals
use cxx_fiber.Prelude.{ℕ, ◌+◌, Option, none, some, List, [], ◌∷◌, update}
use cxx_fiber.Fifo.{Fifo}
use cxx_fiber.Blocker
use cxx_fiber.Blocker.{Waiter, Blocker, Reply, no_limit}

-- The blockers that `await` has allocated, by number; `waiters` holds their numbers.
pub record Condition (Q W : Type 0) : Type 0 where
  pub blockers : ℕ → Blocker Q
  pub next : ℕ
  pub waiters : W

module _ {Q W : Type 0} (F : Fifo Waiter Q) (G : Fifo ℕ W) where
  -- `new EFiberBlocker(0)` and `waiters.add(fb)`.
  pub enrol : Condition Q W → Condition Q W
  enrol c = record {
    blockers = update c.blockers c.next (Blocker.create F 0 no_limit);
    next = c.next + 1;
    waiters = G.add c.waiters c.next;
  }

  -- `await` of the fiber `f`, when nobody signals before the scheduler has parked it.
  pub await : ℕ → Condition Q W → Condition Q W × Reply
  unfolding enrol
  await f c =
      let c' = enrol c in
      let (b, r) = Blocker.wait_fiber F f (c'.blockers c.next) in
      (record c' { blockers = update c'.blockers c.next b }, r)

  wake : ℕ → Condition Q W → Condition Q W × Reply
  wake id c =
      let (b, r) = Blocker.wake_up F (c.blockers id) in
      (record c { blockers = update c.blockers id b }, r)

  pub signal : Condition Q W → Condition Q W × Option Reply
  unfolding wake
  signal c = elim (G.poll c.waiters) [
    | none ↦ (c, none)
    | some (id, rest) ↦ let (c', r) = wake id (record c { waiters = rest }) in (c', some r)
  ]

  -- The loop of `signalAll` over the entries that its iterator gives.
  pub wake_each : List ℕ → Condition Q W → Condition Q W × List Reply
  wake_each [] c = (c, [])
  wake_each (id ∷ ids) c =
      let (c', r) = wake id c in let (c'', rs) = wake_each ids c' in (c'', r ∷ rs)

  -- The iterator removes nothing, and no other line of `signalAll` does.
  pub signal_all : Condition Q W → Condition Q W × List Reply
  signal_all c = wake_each (G.to_list c.waiters) c
