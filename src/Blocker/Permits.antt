-- ===== src/Blocker/Permits.antt =====
-- src/EFiberBlocker.cpp: no permit is lost or made up, and none lies idle while someone waits.
use cxx_fiber.Prelude.{
  ℕ, ◌+◌, ◌≤◌, ◌<◌, ◌^◌, ◌≡◌, ◌≢◌, refl, sym, ap, ◌∙◌, ◌⊎◌, inl, inr, List, [], ◌∷◌, ◌++◌, none,
  some, arith,
}
use mathlib.Core.List.{append-nil, append_assoc}
use cxx_fiber.Fifo.{Fifo}
use cxx_fiber.Blocker.{
  Waiter, thread, fiber, Blocker, Reply, passed, parked, stored, refused, resumed, create,
  wait_check, try_wait, wait_thread, swap_out, wait_fiber, wake_up, Call, checks, tries, wakes,
  waits_thread, swaps_out, step, run,
}

-- Permits that a reply hands to a waiter, and permits that a `wakeUp` brought in.
abbrev pub granted : Reply → ℕ
granted passed = 1
granted (resumed w) = 1
granted _ = 0

abbrev pub accepted : Reply → ℕ
accepted stored = 1
accepted (resumed w) = 1
accepted _ = 0

abbrev pub total : (Reply → ℕ) → List Reply → ℕ
total f [] = 0
total f (r ∷ rs) = f r + total f rs

-- The waiter that a call puts into the queue, and the one that it takes out.
unfoldable pub arrival : Call → Reply → List Waiter
arrival waits_thread parked = thread ∷ []
arrival (swaps_out f) parked = fiber f ∷ []
arrival _ _ = []

unfoldable pub departure : Reply → List Waiter
departure (resumed w) = w ∷ []
departure _ = []

unfoldable pub arrivals : List Call → List Reply → List Waiter
arrivals (c ∷ cs) (r ∷ rs) = arrival c r ++ arrivals cs rs
arrivals _ _ = []

unfoldable pub departures : List Reply → List Waiter
departures [] = []
departures (r ∷ rs) = departure r ++ departures rs

-- `poll` by cases, as the laws of the queue give them.
module _ {Q : Type 0} (F : Fifo Waiter Q) where
  abbrev PollCases : Q → Type 0
  PollCases q =
      ((F.to_list q ≡ []) × (F.poll q ≡ none))
      ⊎ ((w : Waiter) × (r : Q) × (F.poll q ≡ some (w, r)) × (F.to_list q ≡ w ∷ F.to_list r))

  poll_split : (q : Q) (xs : List Waiter) → F.to_list q ≡ xs → PollCases q
  poll_split q [] e = inl (e, F.poll_nil q e)
  poll_split q (w ∷ ws) e = let (r, p, t) = F.poll_cons q w ws e in inr (w, r, p, ground arith)

  pub poll_cases : (q : Q) → PollCases q
  poll_cases q = poll_split q (F.to_list q) refl

  -- A permit lies idle only while nobody waits, and the count is within the limit.
  pub record Inv (b : Blocker Q) : Type 0 where
    pub word : b.limit < 2 ^ 32
    pub bounded : b.wakeup ≤ b.limit
    pub no_idle : (b.wakeup ≡ 0) ⊎ (F.to_list b.wait_queue ≡ [])

  pub create-Inv :
      (capacity limit : ℕ) → capacity ≤ limit → limit < 2 ^ 32 → Inv (create F capacity limit)
  unfolding create
  create-Inv capacity limit h k = record { word = k; bounded = h; no_idle = inr F.to_list-empty }

  pub step-Inv : (b : Blocker Q) (c : Call) → Inv b → Inv (step F b c).0
  unfolding step wait_check try_wait wait_thread swap_out wake_up
  step-Inv b checks v = ground arith
  step-Inv b tries v = ground arith
  step-Inv b wakes v = ground (arith, poll_cases b.wait_queue)
  step-Inv b waits_thread v = ground arith
  step-Inv b (swaps_out f) v = ground arith

  -- Every call keeps the permit count within the limit and leaves no permit idle while a waiter
  -- stands in the queue.
  pub run-Inv : (b : Blocker Q) (cs : List Call) → Inv b → Inv (run F b cs).0
  unfolding run
  run-Inv b [] v = v
  run-Inv b (c ∷ cs) v = run-Inv (step F b c).0 cs (step-Inv b c v)

  pub step_balance :
      (b : Blocker Q) (c : Call)
      → Inv b
      → (step F b c).0.wakeup + granted (step F b c).1 ≡ b.wakeup + accepted (step F b c).1
  unfolding step wait_check try_wait wait_thread swap_out wake_up
  step_balance b checks v = ground arith
  step_balance b tries v = ground arith
  step_balance b wakes v = ground (arith, poll_cases b.wait_queue)
  step_balance b waits_thread v = ground arith
  step_balance b (swaps_out f) v = ground arith

  pub step-limit : (b : Blocker Q) (c : Call) → (step F b c).0.limit ≡ b.limit
  unfolding step wait_check try_wait wait_thread swap_out wake_up
  step-limit b checks = ground arith
  step-limit b tries = ground arith
  step-limit b wakes = ground (arith, poll_cases b.wait_queue)
  step-limit b waits_thread = ground arith
  step-limit b (swaps_out f) = ground arith

  pub accepted_wait : (b : Blocker Q) (c : Call) → c ≢ wakes → accepted (step F b c).1 ≡ 0
  unfolding step wait_check try_wait wait_thread swap_out
  accepted_wait b checks h = ground arith
  accepted_wait b tries h = ground arith
  accepted_wait b wakes h = absurd (h refl)
  accepted_wait b waits_thread h = ground arith
  accepted_wait b (swaps_out f) h = ground arith

  pub accepted_wake : (b : Blocker Q) → b.wakeup < b.limit → accepted (step F b wakes).1 ≡ 1
  unfolding step wake_up
  accepted_wake b h = ground (arith, poll_cases b.wait_queue)

  -- `wakeUp` serves the waiter at the front.
  pub wake_up_first :
      (b : Blocker Q) (w : Waiter) (ws : List Waiter)
      → F.to_list b.wait_queue ≡ w ∷ ws
      → ((wake_up F b).1 ≡ resumed w)
        × (F.to_list (wake_up F b).0.wait_queue ≡ ws)
        × ((wake_up F b).0.wakeup ≡ b.wakeup)
        × ((wake_up F b).0.limit ≡ b.limit)
  unfolding wake_up
  wake_up_first b w ws e =
      let (r, p, t) = F.poll_cons b.wait_queue w ws e in rw (p, wake_up) (refl, t, refl, refl)

  -- What `wakeUp` does, by its result.
  pub wake_up_cases :
      (b : Blocker Q)
      → ((F.to_list (wake_up F b).0.wait_queue ≡ F.to_list b.wait_queue)
          × (((wake_up F b).1 ≡ stored) ⊎ ((wake_up F b).1 ≡ refused)))
        ⊎ ((w : Waiter) × ((wake_up F b).1 ≡ resumed w)
            × (F.to_list b.wait_queue ≡ w ∷ F.to_list (wake_up F b).0.wait_queue))
  unfolding wake_up
  wake_up_cases b = elim (poll_cases b.wait_queue) [
    | inl (nil, e) ↦ rw (e, wake_up) (inl (ground arith, ground arith))
    | inr (w, r, e, t) ↦ rw (e, wake_up) (inr (w, refl, t))
  ]

  pub wait_check-queue : (b : Blocker Q) → (wait_check b).0.wait_queue ≡ b.wait_queue
  unfolding wait_check
  wait_check-queue b = ground arith

  pub wait_check_cases : (b : Blocker Q) → ((wait_check b).1 ≡ passed) ⊎ ((wait_check b).1 ≡ parked)
  unfolding wait_check
  wait_check_cases b = ground arith

  pub try_wait-queue : (b : Blocker Q) → (try_wait b).0.wait_queue ≡ b.wait_queue
  unfolding try_wait
  try_wait-queue b = ground arith

  -- What `swapOut` does, by its result.
  pub swap_out_cases :
      (f : ℕ) (b : Blocker Q)
      → (((swap_out F f b).1 ≡ passed) × ((swap_out F f b).0.wait_queue ≡ b.wait_queue))
        ⊎ (((swap_out F f b).1 ≡ parked)
            × (F.to_list (swap_out F f b).0.wait_queue ≡ F.to_list b.wait_queue ++ fiber f ∷ []))
  unfolding swap_out
  swap_out_cases f b = ground (arith, F.to_list-add b.wait_queue (fiber f))

  -- The last permit goes to the first of two `swapOut` calls, and the second parks.
  pub swap_out_permit :
      (f : ℕ) (b : Blocker Q)
      → b.wakeup ≡ 1
      → let b' = (swap_out F f b).0 in
        ((swap_out F f b).1 ≡ passed)
        × ((swap_out F f b').1 ≡ parked)
        × (F.to_list (swap_out F f b').0.wait_queue ≡ F.to_list b.wait_queue ++ fiber f ∷ [])
  unfolding swap_out
  swap_out_permit f b one = ground (arith, F.to_list-add b.wait_queue (fiber f))

  -- An uncontended `wait` in a fiber is its two calls in a row.
  pub wait_fiber_lem :
      (f : ℕ) (b : Blocker Q)
      → wait_fiber F f b ≡ elim (wait_check b).1 [
        | parked ↦ swap_out F f (wait_check b).0
        | r ↦ ((wait_check b).0, r)
      ]
  unfolding wait_fiber wait_check
  wait_fiber_lem f b = ground arith

  pub wait_fiber_first :
      (f limit : ℕ)
      → ((wait_fiber F f (create F 0 limit)).1 ≡ parked)
        × (F.to_list (wait_fiber F f (create F 0 limit)).0.wait_queue ≡ fiber f ∷ [])
  unfolding wait_fiber swap_out create
  wait_fiber_first f limit = (refl, rw (F.to_list-add, F.to_list-empty))

  -- Without a waiter `wakeUp` keeps the permit, below the limit.
  pub wake_up_nobody :
      (b : Blocker Q)
      → F.to_list b.wait_queue ≡ []
      → b.wakeup < b.limit
      → ((wake_up F b).1 ≡ stored) × (F.to_list (wake_up F b).0.wait_queue ≡ [])
  unfolding wake_up
  wake_up_nobody b e h = ground (arith, F.poll_nil b.wait_queue)

  -- Permits are conserved over any calls.
  pub run_balance :
      (b : Blocker Q) (cs : List Call)
      → Inv b
      → (run F b cs).0.wakeup + total granted (run F b cs).1
        ≡ b.wakeup + total accepted (run F b cs).1
  unfolding run
  run_balance b [] v = refl
  run_balance b (c ∷ cs) v =
      omega (arith, step_balance b c v, run_balance (step F b c).0 cs (step-Inv b c v))

  step_order :
      (b : Blocker Q) (c : Call)
      → departure (step F b c).1 ++ F.to_list (step F b c).0.wait_queue
        ≡ F.to_list b.wait_queue ++ arrival c (step F b c).1
  unfolding step wait_check try_wait wait_thread swap_out wake_up arrival departure
  step_order b checks = ground (arith, append-nil (F.to_list b.wait_queue))
  step_order b tries = ground (arith, append-nil (F.to_list b.wait_queue))
  step_order b wakes = ground (arith, append-nil (F.to_list b.wait_queue), poll_cases b.wait_queue)
  step_order b waits_thread =
      ground (arith, append-nil (F.to_list b.wait_queue), F.to_list-add b.wait_queue thread)
  step_order b (swaps_out f) =
      ground (arith, append-nil (F.to_list b.wait_queue), F.to_list-add b.wait_queue (fiber f))

  -- The entries of the wait queue leave in the order in which they came: those that `wakeUp` has taken,
  -- then those that still stand in it, are those that stood in it at first, then those that came. An
  -- entry is a fiber, or the monitor that all threads wait on, which says nothing of the order in which
  -- the threads go on. The calls are any list of waits, of tryWait without a time and of wakeUp; the
  -- tryWait with a time, which takes its entry out at its time-out, is not among them.
  pub run_order :
      (b : Blocker Q) (cs : List Call)
      → departures (run F b cs).1 ++ F.to_list (run F b cs).0.wait_queue
        ≡ F.to_list b.wait_queue ++ arrivals cs (run F b cs).1
  unfolding run departures arrivals
  run_order b [] = sym (append-nil (F.to_list b.wait_queue))
  run_order b (c ∷ cs) =
      append_assoc d _ _
      ∙ ap (◌++◌ d) (run_order b' cs)
      ∙ sym (append_assoc d _ _)
      ∙ ap (λ l. l ++ arrivals cs (run F b' cs).1) (step_order b c)
      ∙ append_assoc (F.to_list b.wait_queue) _ _
    where
      b' : Blocker Q
      b' = (step F b c).0

      d : List Waiter
      d = departure (step F b c).1
