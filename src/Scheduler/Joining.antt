-- ===== src/Scheduler/Joining.antt =====
-- `join(int threadNums)` of src/EFiberScheduler.cpp up to the start of its threads.
use cxx_fiber.Prelude.{
  ℕ, zero, suc, ◌+◌, ◌%◌, ◌^◌, ◌≤◌, length, ◌<◌, ◌≡◌, refl, sym, ap, ◌∙◌, arith, true, false,
  Option, none, some, List, [], ◌∷◌, ◌++◌, ltb, if◌then◌else◌,
}
use cxx_fiber.Prelude.Sums.{sum_below, sum_below-update, sum_below-eq-zero}
use native.Mathlib.Nat.{mod-lt}
use cxx_fiber.Runtime.{World, fault, enqueue}
use cxx_fiber.Scheduler.{by_balance}
use cxx_fiber.Scheduler.Scheduling.{round_robin_small}
use cxx_fiber.Scheduler.Places.{count, count_append}

module _ {Q : Type 0} where
  -- `schedulerStubs->getAt(i)->taskQueue.add`.
  pub hand : Option ℕ → ℕ → World Q → World Q
  hand none f w = fault w
  hand (some i) f w = if ltb i w.threads then enqueue i f w else fault w

  -- The loop that empties the default queue.
  pub distribute : List ℕ → World Q → World Q
  unfolding by_balance hand
  distribute [] w = w
  distribute (f ∷ fs) w = let (w1, i) = by_balance w.balance f w in distribute fs (hand i f w1)

  -- The new stubs: their queues are empty, and no thread hangs in its io waiter.
  pub with_stubs : ℕ → World Q → World Q
  with_stubs n w = record w {
    threads = n;
    stubs = true;
    queues = λ i. [];
    hung = λ i. false;
    waiters = λ i. 0;
    signals = λ i. 0;
  }

  -- The world in which the threads start; none is the exception. The default queue is that of thread
  -- 0, which `join()` goes on with.
  pub join : ℕ → World Q → Option (World Q)
  unfolding distribute with_stubs
  join zero w = none
  join (suc zero) w = some w
  join (suc (suc n)) w = some (distribute (w.queues 0) (with_stubs (n + 2) w))

-- The callback, if there is one, answers with the index of a thread.
abbrev pub InRange : Option (ℕ → ℕ → ℕ) → ℕ → Type 0
InRange none threads = Unit
InRange (some choose) threads = (f : ℕ) → choose f threads < threads

module _ {Q : Type 0} where
  hand_lem :
      (i f x : ℕ) (w : World Q)
      → i < w.threads
      → let v = hand (some i) f w in
        (sum_below (count x) w.threads v.queues
          ≡ sum_below (count x) w.threads w.queues + count x (f ∷ []))
        × (v.threads ≡ w.threads)
        × (v.faulted ≡ w.faulted)
        × (v.balance ≡ w.balance)
        × (v.balance_index ≡ w.balance_index)
  unfolding hand
  hand_lem i f x w there =
      let below : ltb i w.threads ≡ true = ground arith in
      let grown = sum_below-update (count x) w.threads w.queues i (w.queues i ++ f ∷ []) there in
      rw below (omega (arith, grown, count_append x (w.queues i) (f ∷ [])), refl, refl, refl, refl)

  deal_lem :
      (b : Option (ℕ → ℕ → ℕ)) (f x : ℕ) (w : World Q)
      → 0 < w.threads
      → InRange b w.threads
      → w.balance_index < 2 ^ 31
      → let (w1, i) = by_balance b f w in
        let v = hand i f w1 in
        (sum_below (count x) w.threads v.queues
          ≡ sum_below (count x) w.threads w.queues + count x (f ∷ []))
        × (v.threads ≡ w.threads)
        × (v.faulted ≡ w.faulted)
        × (v.balance ≡ w.balance)
        × (v.balance_index ≤ w.balance_index + 1)
  unfolding by_balance
  deal_lem none f x w some_thread ok small =
      let w1 = record w { balance_index = (w.balance_index + 1) % 2 ^ 32 } in
      let d = hand_lem (w.balance_index % w.threads) f x w1 (mod-lt w.balance_index some_thread) in
      rw (round_robin_small w.balance_index w.threads small)
        (d.0, d.1, d.2, d.3, omega (arith, d.4))
  deal_lem (some choose) f x w some_thread ok small =
      let d = hand_lem (choose f w.threads) f x w (ok f) in (d.0, d.1, d.2, d.3, omega (arith, d.4))

  distribute_lem :
      (fs : List ℕ) (w : World Q) (n x : ℕ)
      → w.threads ≡ n
      → 0 < n
      → InRange w.balance n
      → w.balance_index + length fs ≤ 2 ^ 31
      → let v = distribute fs w in
        (sum_below (count x) n v.queues ≡ sum_below (count x) n w.queues + count x fs)
        × (v.faulted ≡ w.faulted)
  unfolding distribute
  distribute_lem [] w n x same some_thread ok few = (omega arith, refl)
  distribute_lem (f ∷ fs) w n x same some_thread ok few =
      let v = hand (by_balance w.balance f w).1 f (by_balance w.balance f w).0 in
      let d = deal_lem w.balance f x w (rw same some_thread) (rw same ok) (omega (arith, few)) in
      let r =
        distribute_lem fs v n x (d.1 ∙ same) some_thread (rw d.3 ok) (omega (arith, few, d.4)) in
      let grown : sum_below (count x) n v.queues
          ≡ sum_below (count x) n w.queues + count x (f ∷ []) =
        sym (ap (λ k. sum_below (count x) k v.queues) same)
        ∙ d.0
        ∙ ap (λ k. sum_below (count x) k w.queues + count x (f ∷ [])) same in
      (omega (arith, r.0, grown, count_append x (f ∷ []) fs), r.1 ∙ d.2)

  -- `join` for two threads or more hands out every fiber of the default queue: when the threads start,
  -- their queues together hold each fiber as often as the default queue did, and no index has gone
  -- out of range. A balance callback, if there is one, is to answer with the index of a thread, and the
  -- counter of the round robin and the fibers that it counts are to be 2^31 at most together.
  pub join-distributes :
      (n x : ℕ) (w : World Q)
      → InRange w.balance (n + 2)
      → w.balance_index + length (w.queues 0) ≤ 2 ^ 31
      → (v : World Q) × (join (suc (suc n)) w ≡ some v)
        × (sum_below (count x) (n + 2) v.queues ≡ count x (w.queues 0))
        × (v.faulted ≡ w.faulted)
  unfolding join with_stubs
  join-distributes n x w ok few =
      let d =
        distribute_lem (w.queues 0) (with_stubs (n + 2) w) (n + 2) x refl (omega arith) ok few in
      let none_before = sum_below-eq-zero (count x) (n + 2) (λ i. []) (λ i. refl) in
      (distribute (w.queues 0) (with_stubs (n + 2) w), refl, omega (arith, d.0, none_before), d.1)
