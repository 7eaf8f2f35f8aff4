-- ===== src/Scheduler/Loop/Brief.antt =====
-- src/EFiberScheduler.cpp, src/EContext.cpp: fibers that only give way to one another, and the turns
-- that they take.
use cxx_fiber.Prelude.{
  ℕ, suc, ◌+◌, ◌<◌, ◌≡◌, ◌≢◌, refl, sym, ap, ◌∙◌, ◌⊎◌, inl, inr, List, [], ◌∷◌, ◌++◌, arith, length,
  length-append, Fresh, Distinct, Distinct-snoc, update_self, update_ne,
}
use cxx_fiber.Fifo.{Fifo}
use cxx_fiber.Blocker
use cxx_fiber.Blocker.{Waiter}
use cxx_fiber.Runtime.{
  put_fiber, waits, wakes, sleeps, cancels_timer, schedules, schedules_here, runnable, terminated,
  Action, yields, tries, Fiber, World, put_blocker,
}
use cxx_fiber.Scheduler.{act, dispatch}
use cxx_fiber.Scheduler.Steps.{advance}
use cxx_fiber.Scheduler.Loop.{take}
use cxx_fiber.Scheduler.Loop.Worker.{drive, fiber_worker}

-- A body that yields and tries blockers, any number of times, and returns.
abbrev GivesWay : Action → Type 0
GivesWay yields = Unit
GivesWay (tries b) = Unit
GivesWay _ = ⊥

abbrev pub IsBrief : List Action → Type 0
IsBrief [] = Unit
IsBrief (a ∷ rest) = GivesWay a × IsBrief rest

abbrev pub IsReady : Fiber → Type 0
IsReady a = (a.state ≡ runnable) × IsBrief a.program

module _ {Q : Type 0} where
  abbrev pub AreReady : World Q → List ℕ → Type 0
  AreReady w [] = Unit
  AreReady w (f ∷ fs) = IsReady (w.fibers f) × AreReady w fs

  -- A bound on the turns that the fibers of a queue still take: one for each call, tries included, and
  -- one for each fiber.
  abbrev pub work : World Q → List ℕ → ℕ
  work w [] = 0
  work w (f ∷ fs) = suc (length (w.fibers f).program) + work w fs

  -- The fiber `f` has run, and nothing else has changed that the loop looks at.
  abbrev Ran : ℕ → World Q → World Q → Type 0
  Ran f w v =
      ((x : ℕ) → f ≢ x → v.fibers x ≡ w.fibers x)
      × (v.queues ≡ w.queues)
      × (v.total ≡ w.total)
      × (v.waiters ≡ w.waiters)

  Ran-AreReady :
      (f : ℕ) (w v : World Q)
      → ((x : ℕ) → f ≢ x → v.fibers x ≡ w.fibers x)
      → (fs : List ℕ) → Fresh f fs
      → AreReady w fs
      → AreReady v fs × (work v fs ≡ work w fs)
  Ran-AreReady f w v same [] fresh h = (tt, refl)
  Ran-AreReady f w v same (g ∷ fs) (ne, fresh) (ready, h) =
      let (ready', e) = Ran-AreReady f w v same fs fresh h in
      let this = same g (λ q. ne (sym q)) in
      ((rw this ready, ready'), rw this (ap (λ k. suc (length (w.fibers g).program) + k) e))

  AreReady-snoc :
      (w : World Q) (fs : List ℕ) (f : ℕ)
      → AreReady w fs
      → IsReady (w.fibers f)
      → AreReady w (fs ++ f ∷ [])
        × (work w (fs ++ f ∷ []) ≡ work w fs + suc (length (w.fibers f).program))
  AreReady-snoc w [] f h r = ((r, tt), omega arith)
  AreReady-snoc w (g ∷ fs) f (r', h) r =
      let (ready, e) = AreReady-snoc w fs f h r in ((r', ready), omega (arith, e))

  -- What the loop finds in the queue of the thread.
  abbrev pub Lined : ℕ → World Q → List ℕ → Type 0
  Lined t w qs =
      (w.queues t ≡ qs) × (w.total ≡ length qs) × (w.waiters t ≡ 0) × Distinct qs × AreReady w qs

-- A turn takes one from the work that the queue holds, or more.
abbrev pub Advanced : {Q : Type 0} → ℕ → ℕ → World Q → Type 0
Advanced t k v = (qs : List ℕ) × Lined t v qs × (work v qs < k)

module _ {Q : Type 0} (F : Fifo Waiter Q) (t f : ℕ) where
  -- A brief body returns, or yields with less to do than before.
  drive-Ran :
      (body : List Action) (w : World Q)
      → IsBrief body
      → (w.fibers f).state ≡ runnable
      → let v = drive F t f body w in
        Ran f w v
        × ((IsReady (v.fibers f) × (length (v.fibers f).program < length body))
            ⊎ ((v.fibers f).state ≡ terminated))
  unfolding drive act
  drive-Ran [] w brief up =
      (((λ x ne. update_ne w.fibers f x _ ne), refl, refl, refl), inr (ground arith))
  drive-Ran (yields ∷ rest) w brief up = (
    ((λ x ne. update_ne w.fibers f x _ ne), refl, refl, refl),
    inl ((ground arith, ground arith), ground arith),
  )
  drive-Ran (tries b ∷ rest) w brief up =
      let w' = put_blocker b (Blocker.try_wait (w.blockers b)).0 (advance f rest w) in
      let ((same, q, n, ws), left) = drive-Ran rest w' brief.1 (ground arith) in
      (((λ x ne. same x ne ∙ update_ne w.fibers f x _ ne), q, n, ws), ground arith)
  drive-Ran (waits b ∷ rest) w brief up = absurd brief.0
  drive-Ran (wakes b ∷ rest) w brief up = absurd brief.0
  drive-Ran (sleeps ∷ rest) w brief up = absurd brief.0
  drive-Ran (cancels_timer ∷ rest) w brief up = absurd brief.0
  drive-Ran (schedules g ∷ rest) w brief up = absurd brief.0
  drive-Ran (schedules_here g ∷ rest) w brief up = absurd brief.0

  dispatch-Advanced :
      (k : ℕ) (rest : List ℕ) (v : World Q)
      → v.queues t ≡ rest
      → v.total ≡ suc (length rest)
      → v.waiters t ≡ 0
      → Distinct (f ∷ rest)
      → AreReady v rest
      → (IsReady (v.fibers f) × (work v rest + suc (length (v.fibers f).program) < k))
        ⊎ (((v.fibers f).state ≡ terminated) × (work v rest < k))
      → Advanced t k (dispatch F t f v)
  unfolding dispatch
  dispatch-Advanced k rest v q n ws (fresh, distinct) h (inl (ready, less)) =
      let (all, e) = AreReady-snoc v rest f h ready in
      rw (ready.0, dispatch)
        (
          rest ++ f ∷ [],
          (
            update_self v.queues t (v.queues t ++ f ∷ []) ∙ ap (λ xs. xs ++ f ∷ []) q,
            omega (arith, n, length-append rest (f ∷ [])),
            ws,
            Distinct-snoc rest f distinct fresh,
            all,
          ),
          omega (arith, e, less),
        )
  dispatch-Advanced k rest v q n ws (fresh, distinct) h (inr (over, less)) =
      rw (over, dispatch) (rest, (q, omega (arith, n), ws, distinct, h), less)

  -- One fiber of the queue, taken off it, bound, run and disposed of. What is written into it before
  -- does not matter, but its state and its program.
  pub serve-Advanced :
      (b : Fiber) (rest : List ℕ) (w : World Q)
      → b.state ≡ (w.fibers f).state
      → b.program ≡ (w.fibers f).program
      → Lined t w (f ∷ rest)
      → Advanced t
          (work w (f ∷ rest))
          (dispatch F t f (fiber_worker F t f (put_fiber f b (take t rest w))))
  unfolding fiber_worker take
  serve-Advanced b rest w st pr (q, n, ws, (fresh, distinct), (ready, others)) =
      let w1 = put_fiber f b (take t rest w) in
      let body = (w1.fibers f).program in
      let v = drive F t f body w1 in
      let here : w1.fibers f ≡ b = update_self w.fibers f b in
      let program : body ≡ (w.fibers f).program = ap (λ a. a.program) here ∙ pr in
      let away : (x : ℕ) → f ≢ x → w1.fibers x ≡ w.fibers x = λ x ne. update_ne w.fibers f x b ne in
      let ((frame, qs, total, waiters), left) =
        drive-Ran body w1 (rw program ready.1) (ap (λ a. a.state) here ∙ st ∙ ready.0) in
      let (kept, e) = Ran-AreReady f w v (λ x ne. frame x ne ∙ away x ne) rest fresh others in
      dispatch-Advanced (work w (f ∷ rest)) rest v
        (ap (λ (g : ℕ → List ℕ). g t) qs ∙ update_self w.queues t rest) (total ∙ n)
        (ap (λ (g : ℕ → ℕ). g t) waiters ∙ ws) (fresh, distinct) kept
        (elim left [
          | inl (fit, less) ↦ inl (fit, omega (arith, e, less, ap length program))
          | inr over ↦ inr (over, omega (arith, e))
        ])
