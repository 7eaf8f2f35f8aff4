-- ===== src/Blocker/Timed/Settled.antt =====
-- src/EFiberBlocker.cpp: what a `tryWait` with a time limit has got when it returns.
use cxx_fiber.Prelude.Int.{ℤ}
use cxx_fiber.Prelude.{
  ℕ, suc, ◌+◌, ◌-◌, ◌<◌, ◌≤◌, ◌≡◌, refl, sym, ap, ◌∙◌, Bool, true, false, not, ltb, Bool-cases, inl,
  inr, List, [], ◌∷◌, arith,
}
use cxx_fiber.Fifo.{Fifo}
use cxx_fiber.Blocker.{
  Waiter, thread, fiber, Blocker, Reply, parked, wait_check, wait_thread, swap_out, Call, run,
}
use cxx_fiber.Blocker.Permits.{granted, total, departures, arrivals, run_order, swap_out_cases}
use cxx_fiber.Blocker.Timed.{
  has, Removal, Waited, starts_timer, finish, resume, granted_at_once, try_wait_for,
  try_wait_for_thread,
}
use cxx_fiber.Blocker.Timed.Counts.{
  count, count-append, count_self, has-count, absent_count, count-without, AreOthers,
  arrivals_others,
}

-- The permits that the caller has got: from its own sections, and from a `wakeUp` of another.
abbrev pub received : {Q : Type 0} → Waiter → Waited Q → ℕ
received w r = total granted r.own + count w (departures r.replies)

abbrev result_permits : Bool → ℕ
result_permits true = 1
result_permits false = 0

settled_count : (n m : ℕ) → n + m ≡ 1 → n ≡ result_permits (not (ltb 0 m))
settled_count n m e = ground arith

module _ {Q : Type 0} (F : Fifo Waiter Q) (R : Removal F) where
  abbrev pub in_queue : Waiter → Blocker Q → ℕ
  in_queue w b = count w (F.to_list b.wait_queue)

  -- Exactly one permit with the result true, none with false, and no entry left behind.
  abbrev pub Settled : Waiter → Waited Q → Type 0
  Settled w r = (received w r ≡ result_permits r.result) × (in_queue w r.blocker ≡ 0)

  run-count :
      (w : Waiter) (cs : List Call) (b : Blocker Q)
      → AreOthers w cs
      → count w (departures (run F b cs).1) + in_queue w (run F b cs).0 ≡ in_queue w b
  run-count w cs b h =
      let (b', rs) = run F b cs in
      omega (
        arith,
        count-append w (departures (run F b cs).1) (F.to_list (run F b cs).0.wait_queue),
        count-append w (F.to_list b.wait_queue) (arrivals cs (run F b cs).1),
        ap (count w) (run_order F b cs),
        arrivals_others w cs (run F b cs).1 h,
      )

  finish_late :
      (w : Waiter) (b : Blocker Q)
      → in_queue w b ≤ 1
      → ((finish F R w true b).1 ≡ not (ltb 0 (in_queue w b)))
        × (in_queue w (finish F R w true b).0 ≡ 0)
  unfolding finish
  finish_late w b h = (
    ap not (R.remove-has b.wait_queue w ∙ has-count w (F.to_list b.wait_queue)),
    ap (count w) (R.to_list-remove b.wait_queue w) ∙ count-without w (F.to_list b.wait_queue) h,
  )

  resume-Settled :
      (w : Waiter) (cs : List Call) (late timer : Bool) (own : List Reply) (b : Blocker Q)
      → AreOthers w cs
      → total granted own + in_queue w b ≡ 1
      → (late ≡ false → 0 < received w (resume F R w cs late timer own b))
      → Settled w (resume F R w cs late timer own b)
  unfolding resume finish
  resume-Settled w cs true timer own b h one got =
      let counted = run-count w cs b h in
      let (decides, leaves) = finish_late w (run F b cs).0 (omega (arith, counted)) in
      (
        settled_count (received w (resume F R w cs true timer own b)) (in_queue w (run F b cs).0)
              (omega (arith, counted))
            ∙ ap result_permits (sym decides),
        leaves,
      )
  resume-Settled w cs false timer own b h one got =
      (omega (arith, run-count w cs b h, got refl), omega (arith, run-count w cs b h, got refl))

  at_once-Settled : (w : Waiter) (b : Blocker Q) → in_queue w b ≡ 0 → Settled w (granted_at_once b)
  unfolding granted_at_once departures
  at_once-Settled w b e = (omega arith, e)

  -- What `swapOut` has done for the fiber, and what it leaves to the others.
  swap_out-count :
      (f : ℕ) (b : Blocker Q)
      → in_queue (fiber f) b ≡ 0
      → granted (swap_out F f b).1 + in_queue (fiber f) (swap_out F f b).0 ≡ 1
  swap_out-count f b e = elim (swap_out_cases F f b) [
    | inl (r, q) ↦ rw (r, q) (omega (arith, e))
    | inr (r, q) ↦
        rw (r, q)
          (omega (
            arith,
            e,
            count-append (fiber f) (F.to_list b.wait_queue) (fiber f ∷ []),
            count_self (fiber f),
          ))
  ]

  try_wait_for_permit :
      (to_millis : ℤ → ℤ) (f : ℕ) (time : ℤ) (before cs : List Call) (late : Bool) (b : Blocker Q)
      → ltb 0 b.wakeup ≡ true
      → try_wait_for F R to_millis f time before cs late b
        ≡ granted_at_once (record b { wakeup = b.wakeup - 1 })
  unfolding try_wait_for wait_check
  try_wait_for_permit to_millis f time before cs late b permit = ground arith

  try_wait_for_empty :
      (to_millis : ℤ → ℤ) (f : ℕ) (time : ℤ) (before cs : List Call) (late : Bool) (b : Blocker Q)
      → ltb 0 b.wakeup ≡ false
      → let (b', r) = swap_out F f (run F b before).0 in
        try_wait_for F R to_millis f time before cs late b
        ≡ resume F R (fiber f) cs late (starts_timer (to_millis time)) (parked ∷ r ∷ []) b'
  unfolding try_wait_for wait_check
  try_wait_for_empty to_millis f time before cs late b nothing = ground arith

  -- A `tryWait` with a time limit in a fiber returns true if and only if it has got exactly one
  -- permit, false if and only if it has got none, and leaves no entry in the wait queue, whatever
  -- others call before the fiber is parked and until it runs again. They are not to park this fiber,
  -- which stands in no queue before. A fiber that its timer has not resumed is to have got a permit.
  pub try_wait_for-Settled :
      (to_millis : ℤ → ℤ) (f : ℕ) (time : ℤ) (before cs : List Call) (late : Bool) (b : Blocker Q)
      → has (fiber f) (F.to_list b.wait_queue) ≡ false
      → AreOthers (fiber f) before
      → AreOthers (fiber f) cs
      → (late ≡ false → 0 < received (fiber f) (try_wait_for F R to_millis f time before cs late b))
      → Settled (fiber f) (try_wait_for F R to_millis f time before cs late b)
  try_wait_for-Settled to_millis f time before cs late b fresh h k got =
      let absent = absent_count (fiber f) (F.to_list b.wait_queue) fresh in
      elim (Bool-cases (ltb 0 b.wakeup)) [
        | inl permit ↦
            rw (try_wait_for_permit to_millis f time before cs late b permit)
              (at_once-Settled (fiber f) (record b { wakeup = b.wakeup - 1 }) absent)
        | inr nothing ↦
            let b' = (run F b before).0 in
            let e = try_wait_for_empty to_millis f time before cs late b nothing in
            rw e (
              resume-Settled (fiber f) cs late (starts_timer (to_millis time))
                (parked ∷ (swap_out F f b').1 ∷ []) (swap_out F f b').0 k
                (omega (
                  arith,
                  swap_out-count f b' (omega (arith, absent, run-count (fiber f) before b h)),
                ))
                (rw e at got))
      ]

  wait_thread-count :
      (b : Blocker Q)
      → ltb 0 b.wakeup ≡ false
      → in_queue thread (record b { wait_queue = F.add b.wait_queue thread })
        ≡ suc (in_queue thread b)
  wait_thread-count b e =
      ap (count thread) (F.to_list-add b.wait_queue thread)
      ∙ omega (arith, count-append thread (F.to_list b.wait_queue) (thread ∷ []), count_self thread)

  try_wait_for_thread_permit :
      (cs : List Call) (late : Bool) (b : Blocker Q)
      → ltb 0 b.wakeup ≡ true
      → try_wait_for_thread F R cs late b ≡ granted_at_once (record b { wakeup = b.wakeup - 1 })
  unfolding try_wait_for_thread wait_thread
  try_wait_for_thread_permit cs late b permit = ground arith

  try_wait_for_thread_empty :
      (cs : List Call) (late : Bool) (b : Blocker Q)
      → ltb 0 b.wakeup ≡ false
      → try_wait_for_thread F R cs late b
        ≡ resume F R thread cs late true
            (parked ∷ [])
            (record b { wait_queue = F.add b.wait_queue thread })
  unfolding try_wait_for_thread wait_thread
  try_wait_for_thread_empty cs late b nothing = ground arith

  -- The same of a `tryWait` with a time limit in a plain thread, where the time-out is the result
  -- false of `await`. As all threads share one entry, no other thread is to wait on the blocker.
  try_wait_for_thread-Settled :
      (cs : List Call) (late : Bool) (b : Blocker Q)
      → has thread (F.to_list b.wait_queue) ≡ false
      → AreOthers thread cs
      → (late ≡ false → 0 < received thread (try_wait_for_thread F R cs late b))
      → Settled thread (try_wait_for_thread F R cs late b)
  try_wait_for_thread-Settled cs late b fresh k got =
      let absent = absent_count thread (F.to_list b.wait_queue) fresh in
      elim (Bool-cases (ltb 0 b.wakeup)) [
        | inl permit ↦
            rw (try_wait_for_thread_permit cs late b permit)
              (at_once-Settled thread (record b { wakeup = b.wakeup - 1 }) absent)
        | inr nothing ↦
            let e = try_wait_for_thread_empty cs late b nothing in
            rw e (
              resume-Settled thread cs late true (parked ∷ [])
                (record b { wait_queue = F.add b.wait_queue thread }) k
                (omega (arith, absent, wait_thread-count b nothing)) (rw e at got))
      ]
