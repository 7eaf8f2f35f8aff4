-- ===== src/Blocker/Timed.antt =====
-- src/EFiberBlocker.cpp: `tryWait` with a time limit, in a fiber and in a plain thread.
mod Counts
pub mod Settled
mod Examples
use cxx_fiber.Prelude.Int.{ℤ, pos, negsuc}
use cxx_fiber.Prelude.{
  ℕ, zero, suc, ◌+◌, ◌≡◌, Bool, true, false, not, ◌||◌, ltb, ◌==◌, if◌then◌else◌, List, [], ◌∷◌,
}
use cxx_fiber.Fifo.{Fifo}
use cxx_fiber.Blocker.{
  Waiter, thread, fiber, Blocker, Reply, passed, parked, wait_check, wait_thread, swap_out, Call,
  run,
}

-- Entries of the queue are compared by their address, which is that of `sync_` for every thread.
unfoldable pub same : Waiter → Waiter → Bool
same thread thread = true
same (fiber f) (fiber g) = f == g
same _ _ = false

abbrev pub has : Waiter → List Waiter → Bool
has w [] = false
has w (v ∷ vs) = same w v || has w vs

abbrev pub without : Waiter → List Waiter → List Waiter
without w [] = []
without w (v ∷ vs) = if same w v then vs else v ∷ without w vs

-- `remove` of EConcurrentIntrusiveDeque: it takes the entry out, and says whether it was there.
pub record Removal {Q : Type 0} (F : Fifo Waiter Q) : Type 0 where
  pub remove : Q → Waiter → Q × Bool
  pub to_list-remove : (q : Q) (w : Waiter) → F.to_list (remove q w).0 ≡ without w (F.to_list q)
  pub remove-has : (q : Q) (w : Waiter) → (remove q w).1 ≡ has w (F.to_list q)

-- A wait that has ended: the blocker, what the caller's own sections decided, what the calls of
-- others returned after them, whether a timer was set, and the result.
pub record Waited (Q : Type 0) : Type 0 where
  pub blocker : Blocker Q
  pub own : List Reply
  pub replies : List Reply
  pub timer : Bool
  pub result : Bool

-- A timer is set for a positive number of milliseconds only.
unfoldable pub starts_timer : ℤ → Bool
starts_timer (pos n) = ltb 0 n
starts_timer (negsuc n) = false

-- A permit was there.
unfoldable pub granted_at_once : {Q : Type 0} → Blocker Q → Waited Q
granted_at_once b = record {
  blocker = b;
  own = passed ∷ [];
  replies = [];
  timer = false;
  result = true;
}

module _ {Q : Type 0} (F : Fifo Waiter Q) (R : Removal F) where
  -- The end of both branches: after a time-out the entry is taken out of the queue, and the wait has
  -- failed if it was still there.
  unfoldable pub finish : Waiter → (late : Bool) → Blocker Q → Blocker Q × Bool
  finish w late b =
      if late
      then (let (q, found) = R.remove b.wait_queue w in (record b { wait_queue = q }, not found))
      else (b, true)

  -- The caller is suspended while others make the calls `cs`.
  unfoldable pub resume :
      Waiter → List Call → (late : Bool) → (timer : Bool) → List Reply → Blocker Q → Waited Q
  resume w cs late timer own b =
      let (b', replies) = run F b cs in
      let (b'', result) = finish w late b' in
      record { blocker = b''; own = own; replies = replies; timer = timer; result = result }

  -- In a fiber. `to_millis` is that of the time unit; others make the calls `before` between the
  -- check and the scheduler's `swapOut`, and `cs` until the fiber runs again, which is `late` when
  -- the timer has resumed it.
  unfoldable pub try_wait_for :
      (to_millis : ℤ → ℤ) → ℕ → ℤ → (before cs : List Call) → (late : Bool) → Blocker Q → Waited Q
  try_wait_for to_millis f time before cs late b =
      let (b', r) = wait_check b in
      elim r [
        | passed ↦ granted_at_once b'
        | r ↦
            let (b'', r') = swap_out F f (run F b' before).0 in
            resume (fiber f) cs late (starts_timer (to_millis time)) (r ∷ r' ∷ []) b''
      ]

  -- In a plain thread, where `await` takes the time as it is, and `late` is its result false.
  unfoldable pub try_wait_for_thread : List Call → (late : Bool) → Blocker Q → Waited Q
  try_wait_for_thread cs late b =
      let (b', r) = wait_thread F b in
      elim r [ passed ↦ granted_at_once b' | r ↦ resume thread cs late true (r ∷ []) b' ]
