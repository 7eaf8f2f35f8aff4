-- ===== src/Scheduler/Loop/Reached.antt =====
-- src/EFiberScheduler.cpp: the loop of `joinWithThreadBind` is a run of the step relation of
-- Scheduler.Steps, in which the other threads make their steps in between.
use cxx_fiber.Prelude.{
  ℕ, zero, suc, ◌<◌, ◌≡◌, refl, ◌⊎◌, inl, inr, Bool, true, false, Bool-cases, if_cases, Option,
  none, some, List, [], ◌∷◌, arith, ltb, ◌==◌, update, update_self,
}
use cxx_fiber.Fifo.{Fifo}
use cxx_fiber.Blocker.{Waiter}
use cxx_fiber.Scheduler.{bind, dispatch}
use cxx_fiber.Scheduler.Steps.{
  Control, at_head, polling, taken, running, leaving, exiting, System, Listens, in_its_poll,
  before_its_fiber, finished, polls, binds, hangs, unhangs, dispatches, exits, quits, signals,
  Reach, next,
}
use cxx_fiber.Scheduler.Threads.{Reach-threads}
use cxx_fiber.Scheduler.Loop.{
  Phase, fiber_before, schedule_after, Shared, Program, Thread, tell, report, idle_bound, process,
  switch_to, take, leave_bound, signal_others, serve_bound, attend_bound, turn_bound, loop,
  in_world, changed,
}

module _ {Q : Type 0} (F : Fifo Waiter Q) (n : ℕ) (start : System Q) where
  -- The shared state is that of a system that comes from `start`, and there the thread `t` is at `c`.
  abbrev pub At : ℕ → Control → Shared Q → Type 0
  At t c s =
      (k : ℕ → Control) × (k t ≡ c) × Reach F n start (record { world = s.world; control = k })

  -- What the loop calls does what the steps allow: a fiber's body runs until it yields or returns, and
  -- the events and the callback leave the thread where it stands, other threads going on meanwhile.
  pub record Conforms (P : Program Q) : Type 0 where
    pub runs :
        (t f : ℕ) (s : Shared Q)
        → t < start.threads
        → At t (running f) s
        → At t (leaving f) (P.body t f s) ⊎ At t (exiting f) (P.body t f s)
    pub processes :
        (t timeout : ℕ) (c : Control) (s : Shared Q)
        → t < start.threads
        → Listens c
        → At t c s
        → At t c (P.events t timeout s)
    pub tells :
        (call : ℕ → Phase → Shared Q → Shared Q)
        → P.callback ≡ some call
        → (t : ℕ) (p : Phase) (c : Control) (s : Shared Q) → At t c s
        → At t c (call t p s)

module _ {Q : Type 0} (F : Fifo Waiter Q) (n : ℕ) (start : System Q) (P : Program Q)
    (ok : Conforms F n start P) (t : ℕ) (lt : t < start.threads) where
  abbrev pub Here : Control → Thread Q → Type 0
  Here c j = At F n start t c j.shared

  pub there : {s : System Q} → Reach F n start s → t < s.threads
  there r = omega (arith, Reach-threads F n r)

  tell-Here :
      (call : Option (ℕ → Phase → Shared Q → Shared Q))
      → P.callback ≡ call
      → (p : Phase) (c : Control) (j : Thread Q) → Here c j
      → Here c (tell call t p j)
  unfolding tell
  tell-Here none e p c j h = h
  tell-Here (some call) e p c j h = ok.tells call e t p c j.shared h

  pub report-Here : (p : Phase) (c : Control) (j : Thread Q) → Here c j → Here c (report P t p j)
  unfolding report
  report-Here p c j h = tell-Here P.callback refl p c j h

  pub take-Here :
      (f : ℕ) (rest : List ℕ) (j : Thread Q)
      → j.shared.world.queues t ≡ f ∷ rest
      → Here at_head j
      → Here (taken f) (in_world (take t rest) j)
  unfolding take
  take-Here f rest j e (k, c, r) =
      (update k t (taken f), update_self k t (taken f), next r (polls t f rest (there r) c e))

  pub process-Here : (f : ℕ) (j : Thread Q) → Here (taken f) j → Here (taken f) (process P t j)
  unfolding process
  process-Here f j h = elim (Bool-cases (ltb 0 (j.shared.world.waiters t))) [
    | inl e ↦ rw (e, process) (ok.processes t 0 (taken f) j.shared lt before_its_fiber h)
    | inr e ↦ rw (e, process) h
  ]

  bind-Here : (f : ℕ) (j : Thread Q) → Here (taken f) j → Here (running f) (in_world (bind t f) j)
  bind-Here f j (k, c, r) =
      (update k t (running f), update_self k t (running f), next r (binds t f (there r) c))

  -- The thread holds a fiber that has left its stack.
  abbrev pub Back : ℕ → Thread Q → Type 0
  Back f j = Here (leaving f) j ⊎ Here (exiting f) j

  pub switch_to-Here : (f : ℕ) (j : Thread Q) → Here (running f) j → Back f (switch_to P t f j)
  unfolding switch_to
  switch_to-Here f j h =
      let j1 = report P t (fiber_before f) (record j { local = some (some f) }) in
      elim (ok.runs t f j1.shared lt (report-Here _ _ (record j { local = some (some f) }) h)) [
        | inl l ↦ inl (report-Here _ _ (changed (P.body t f) j1) l)
        | inr x ↦ inr (report-Here _ _ (changed (P.body t f) j1) x)
      ]

  pub dispatch-Here : (f : ℕ) (j : Thread Q) → Back f j → Here at_head (in_world (dispatch F t f) j)
  dispatch-Here f j (inl (k, c, r)) =
      (update k t at_head, update_self k t at_head, next r (dispatches t f (there r) (inl c)))
  dispatch-Here f j (inr (k, c, r)) =
      (update k t at_head, update_self k t at_head, next r (dispatches t f (there r) (inr c)))

  serve_bound-Here :
      (f : ℕ) (rest : List ℕ) (j : Thread Q)
      → j.shared.world.queues t ≡ f ∷ rest
      → Here at_head j
      → Here at_head (serve_bound F P t f rest j)
  unfolding serve_bound
  serve_bound-Here f rest j e h =
      let j1 = in_world (take t rest) j in
      let j2 = in_world (bind t f) (process P t j1) in
      dispatch-Here f (switch_to P t f j2) (
        switch_to-Here f j2
          (bind-Here f (process P t j1) (process-Here f j1 (take-Here f rest j e h))))

  idle_bound-Here :
      (j : Thread Q)
      → j.shared.world.queues t ≡ []
      → 0 < j.shared.world.total
      → Here at_head j
      → Here at_head (idle_bound P t j)
  unfolding idle_bound
  idle_bound-Here j e alive (k, c, r) =
      let j1 = in_world (λ w. record w { hung = update w.hung t true }) j in
      let (k', c', r') =
        ok.processes t 3000 polling j1.shared lt in_its_poll
          (update k t polling, update_self k t polling, next r (hangs t (there r) c e alive)) in
      report-Here _ _
        (in_world (λ w. record w { hung = update w.hung t false }) (changed (P.events t 3000) j1))
        (update k' t at_head, update_self k' t at_head, next r' (unhangs t (there r') c'))

  -- The conditions under which the loop ends.
  abbrev pub Ended : Thread Q → Type 0
  Ended j =
      (j.shared.interrupted ≡ true)
      ⊎ ((j.shared.interrupted ≡ false)
          × (j.shared.world.queues t ≡ [])
          × (j.shared.world.total ≡ 0))

  -- After a turn the thread is at the head of the loop again, or it is about to leave it.
  abbrev pub Turned : Thread Q × Bool → Type 0
  Turned (j, more) = Here at_head j × ((more ≡ false) → Ended j)

  attend_bound-Turned :
      (queue : List ℕ) (j : Thread Q)
      → j.shared.world.queues t ≡ queue
      → j.shared.interrupted ≡ false
      → Here at_head j
      → Turned (attend_bound F P t queue j)
  unfolding attend_bound
  attend_bound-Turned (f ∷ rest) j e up h = (serve_bound-Here f rest j e h, λ no. absurd cc)
  attend_bound-Turned [] j e up h = elim (Bool-cases (ltb 0 j.shared.world.total)) [
    | inl alive ↦ rw alive (idle_bound-Here j e (ground (arith, alive)) h, λ no. absurd cc)
    | inr nobody ↦ rw nobody (h, λ _. inr (up, e, ground (arith, nobody)))
  ]

  turn_bound-Turned : (j : Thread Q) → Here at_head j → Turned (turn_bound F P t j)
  unfolding turn_bound
  turn_bound-Turned j h =
      if_cases Turned j.shared.interrupted (j, false)
        (attend_bound F P t (j.shared.world.queues t) j) (λ e. (h, λ _. inl e))
        (λ e. attend_bound-Turned (j.shared.world.queues t) j refl e h)

  -- The loop has ended, or has used up its fuel.
  abbrev pub Looped : Thread Q × Bool → Type 0
  Looped (j, over) = Here at_head j × ((over ≡ true) → Ended j)

  pub loop-Looped :
      (once : Thread Q → Thread Q × Bool)
      → ((j : Thread Q) → Here at_head j → Turned (once j))
      → (fuel : ℕ) (j : Thread Q) → Here at_head j
      → Looped (loop once fuel j)
  unfolding loop
  loop-Looped once turned zero j h = (h, λ no. absurd cc)
  loop-Looped once turned (suc fuel) j h =
      let (i, more) = once j in
      let (g, ended) = turned j h in
      if_cases Looped more (loop once fuel i) (i, true) (λ _. loop-Looped once turned fuel i g)
        (λ e. (g, λ _. ended e))

  pub loop_bound-Looped :
      (fuel : ℕ) (j : Thread Q) → Here at_head j → Looped (loop (turn_bound F P t) fuel j)
  loop_bound-Looped = loop-Looped (turn_bound F P t) turn_bound-Turned

  pub leave_head : (j : Thread Q) → Ended j → Here at_head j → Here finished j
  leave_head j (inl e) (k, c, r) =
      (update k t finished, update_self k t finished, next r (quits t (there r) c))
  leave_head j (inr (up, e, z)) (k, c, r) =
      (update k t finished, update_self k t finished, next r (exits t (there r) c e z))

  signal_others-Here :
      (m : ℕ) (j : Thread Q) → Here finished j → Here finished (in_world (signal_others t m) j)
  unfolding signal_others
  signal_others-Here zero j h = h
  signal_others-Here (suc m) j h = elim (Bool-cases (m == t)) [
    | inl e ↦ rw e (signal_others-Here m j h)
    | inr e ↦
        rw e (let (k, c, r) = signal_others-Here m j h in (k, c, next r (signals t m (there r) c)))
  ]

  pub leave_bound-Here : (j : Thread Q) → Here finished j → Here finished (leave_bound P t j)
  unfolding leave_bound
  leave_bound-Here j h =
      let j1 = record j { io_waiter = none; local = none; context = false } in
      report-Here schedule_after finished (in_world (λ w. signal_others t w.threads w) j1)
        (signal_others-Here j.shared.world.threads j1 h)
