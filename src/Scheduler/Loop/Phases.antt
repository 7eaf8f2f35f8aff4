-- ===== src/Scheduler/Loop/Phases.antt =====
-- src/EFiberScheduler.cpp: in which order the schedule callback is told the phases.
use cxx_fiber.Prelude.{
  ℕ, zero, suc, ◌≡◌, refl, sym, ap, ◌∙◌, Bool, true, false, Bool-cases, inl, inr, some, List, [],
  ◌∷◌, ◌++◌, none, ltb, if◌then◌else◌, arith,
}
use mathlib.Core.List.{append-nil, append_assoc}
use cxx_fiber.Fifo.{Fifo}
use cxx_fiber.Blocker.{Waiter}
use cxx_fiber.Scheduler.{bind}
use cxx_fiber.Scheduler.Loop.{
  Phase, schedule_before, schedule_idle, schedule_after, fiber_before, fiber_after, Shared, Program,
  Thread, Ending, unfinished, changed, in_world, report, tell, idle, idle_bound, process, switch_to,
  enter, leave, leave_bound, ending, serve, serve_bound, attend, attend_bound, turn, turn_bound,
  loop, close, join, join_with_thread_bind, take, bind_default,
}

-- A turn of the loop as the callback sees it.
pub data Round : Type 0 where
  idles : Round
  serves : (fiber : ℕ) → Round

abbrev pub told : List Round → List Phase
told [] = []
told (idles ∷ rs) = schedule_idle ∷ told rs
told (serves f ∷ rs) = fiber_before f ∷ fiber_after f ∷ told rs

-- A loop that has ended is told last.
abbrev pub farewell : Ending → List Phase
farewell unfinished = []
farewell _ = schedule_after ∷ []

told-append : (rs qs : List Round) → told (rs ++ qs) ≡ told rs ++ told qs
told-append [] qs = refl
told-append (idles ∷ rs) qs = ap (◌∷◌ schedule_idle) (told-append rs qs)
told-append (serves f ∷ rs) qs = ap (λ ps. fiber_before f ∷ fiber_after f ∷ ps) (told-append rs qs)

module _ {Q : Type 0} where
  -- What has been told since `j`.
  abbrev pub Tells : Thread Q → List Phase → Thread Q → Type 0
  Tells j ps j' = j'.phases ≡ j.phases ++ ps

  Tells-trans :
      (j k l : Thread Q) (ps qs : List Phase) → Tells j ps k → Tells k qs l → Tells j (ps ++ qs) l
  Tells-trans j k l ps qs e f = f ∙ ap (λ xs. xs ++ qs) e ∙ append_assoc j.phases ps qs

  abbrev pub TellsRounds : Thread Q → Thread Q → Type 0
  TellsRounds j j' = (rs : List Round) × Tells j (told rs) j'

  none_told : (j : Thread Q) → TellsRounds j j
  none_told j = ([], sym (append-nil j.phases))

  TellsRounds-trans : (j k l : Thread Q) → TellsRounds j k → TellsRounds k l → TellsRounds j l
  TellsRounds-trans j k l (rs, e) (qs, f) = (
    rs ++ qs,
    Tells-trans j k l (told rs) (told qs) e f ∙ ap (◌++◌ j.phases) (sym (told-append rs qs)),
  )

  either-TellsRounds :
      (j : Thread Q) (b : Bool) (x y : Thread Q × Bool)
      → TellsRounds j x.0
      → TellsRounds j y.0
      → TellsRounds j (if b then x else y).0
  either-TellsRounds j true x y e f = e
  either-TellsRounds j false x y e f = f

  loop-TellsRounds :
      (once : Thread Q → Thread Q × Bool) (n : ℕ) (j : Thread Q)
      → ((k : Thread Q) → TellsRounds k (once k).0)
      → TellsRounds j (loop once n j).0
  unfolding loop
  loop-TellsRounds once zero j tells = none_told j
  loop-TellsRounds once (suc n) j tells = elim (Bool-cases (once j).1) [
    | inl more ↦ rw more (
        TellsRounds-trans j (once j).0 (loop once n (once j).0).0 (tells j)
          (loop-TellsRounds once n (once j).0 tells))
    | inr ends ↦ rw ends (tells j)
  ]

module _ {Q : Type 0} (F : Fifo Waiter Q) (P : Program Q) (c : ℕ → Phase → Shared Q → Shared Q)
    (set : P.callback ≡ some c) where
  report-phases : (t : ℕ) (p : Phase) (j : Thread Q) → Tells j (p ∷ []) (report P t p j)
  unfolding report tell
  report-phases t p j = rw set refl

  process-phases : (t : ℕ) (j : Thread Q) → (process P t j).phases ≡ j.phases
  unfolding process
  process-phases t j = ground arith

  switch_to-phases :
      (t f : ℕ) (j : Thread Q) → Tells j (fiber_before f ∷ fiber_after f ∷ []) (switch_to P t f j)
  unfolding switch_to
  switch_to-phases t f j =
      let j1 = report P t (fiber_before f) (record j { local = some (some f) }) in
      report-phases t (fiber_after f) (changed (P.body t f) j1)
      ∙ ap (λ xs. xs ++ fiber_after f ∷ [])
          (report-phases t (fiber_before f) (record j { local = some (some f) }))
      ∙ append_assoc j.phases (fiber_before f ∷ []) (fiber_after f ∷ [])

  serve-phases :
      (f : ℕ) (rest : List ℕ) (j : Thread Q) → Tells j (told (serves f ∷ [])) (serve F P f rest j)
  unfolding serve
  serve-phases f rest j =
      let j1 = in_world (take 0 rest) j in
      switch_to-phases 0 f (in_world (bind_default f) (process P 0 j1))
      ∙ ap (λ xs. xs ++ told (serves f ∷ [])) (process-phases 0 j1)

  serve_bound-phases :
      (t f : ℕ) (rest : List ℕ) (j : Thread Q)
      → Tells j (told (serves f ∷ [])) (serve_bound F P t f rest j)
  unfolding serve_bound
  serve_bound-phases t f rest j =
      let j1 = in_world (take t rest) j in
      switch_to-phases t f (in_world (bind t f) (process P t j1))
      ∙ ap (λ xs. xs ++ told (serves f ∷ [])) (process-phases t j1)

  idle-phases : (j : Thread Q) → Tells j (told (idles ∷ [])) (idle P j)
  unfolding idle
  idle-phases j = report-phases 0 schedule_idle (changed (P.events 0 3000) j)

  idle_bound-phases : (t : ℕ) (j : Thread Q) → Tells j (told (idles ∷ [])) (idle_bound P t j)
  unfolding idle_bound
  idle_bound-phases t j = report-phases t schedule_idle _

  attend-TellsRounds : (qs : List ℕ) (j : Thread Q) → TellsRounds j (attend F P qs j).0
  unfolding attend
  attend-TellsRounds (f ∷ rest) j = (serves f ∷ [], serve-phases f rest j)
  attend-TellsRounds [] j =
      either-TellsRounds j (ltb 0 j.shared.world.total) (idle P j, true) (j, false)
        (idles ∷ [], idle-phases j) (none_told j)

  attend_bound-TellsRounds :
      (t : ℕ) (qs : List ℕ) (j : Thread Q) → TellsRounds j (attend_bound F P t qs j).0
  unfolding attend_bound
  attend_bound-TellsRounds t (f ∷ rest) j = (serves f ∷ [], serve_bound-phases t f rest j)
  attend_bound-TellsRounds t [] j =
      either-TellsRounds j (ltb 0 j.shared.world.total) (idle_bound P t j, true) (j, false)
        (idles ∷ [], idle_bound-phases t j) (none_told j)

  turn-TellsRounds : (j : Thread Q) → TellsRounds j (turn F P j).0
  unfolding turn
  turn-TellsRounds j =
      let qs = j.shared.world.queues 0 in
      either-TellsRounds j j.shared.interrupted (j, false) (attend F P qs j) (none_told j)
        (attend-TellsRounds qs j)

  turn_bound-TellsRounds : (t : ℕ) (j : Thread Q) → TellsRounds j (turn_bound F P t j).0
  unfolding turn_bound
  turn_bound-TellsRounds t j =
      let qs = j.shared.world.queues t in
      either-TellsRounds j j.shared.interrupted (j, false) (attend_bound F P t qs j) (none_told j)
        (attend_bound-TellsRounds t qs j)

  enter-phases : (t : ℕ) (j : Thread Q) → Tells j (schedule_before ∷ []) (enter P t j)
  unfolding enter
  enter-phases t j =
      report-phases t schedule_before (record j { local = some none; io_waiter = some t })

  leave-phases : (j : Thread Q) → Tells j (schedule_after ∷ []) (leave P j)
  unfolding leave
  leave-phases j = report-phases 0 schedule_after _

  leave_bound-phases : (t : ℕ) (j : Thread Q) → Tells j (schedule_after ∷ []) (leave_bound P t j)
  unfolding leave_bound
  leave_bound-phases t j = report-phases t schedule_after _

  -- A whole loop: the first phase, the turns, and the last phase if the loop has ended.
  abbrev pub ToldInOrder : Thread Q → Thread Q × Ending → Type 0
  ToldInOrder j (j', e) = (rs : List Round) × Tells j (schedule_before ∷ (told rs ++ farewell e)) j'

  farewell-ending : (j : Thread Q) → farewell (ending j) ≡ schedule_after ∷ []
  unfolding ending
  farewell-ending j = ground arith

  close-ToldInOrder :
      (j k : Thread Q) (leaves : Thread Q → Thread Q) (r : Thread Q × Bool)
      → Tells j (schedule_before ∷ []) k
      → ((l : Thread Q) → Tells l (schedule_after ∷ []) (leaves l))
      → TellsRounds k r.0
      → ToldInOrder j (close leaves r)
  unfolding ending
  close-ToldInOrder j k leaves (l, false) e f (rs, g) = (
    rs,
    Tells-trans j k l (schedule_before ∷ []) (told rs) e g
        ∙ ap (λ xs. j.phases ++ schedule_before ∷ xs) (sym (append-nil (told rs))),
  )
  close-ToldInOrder j k leaves (l, true) e f (rs, g) = (
    rs,
    Tells-trans j k (leaves l) (schedule_before ∷ []) (told rs ++ schedule_after ∷ []) e
          (Tells-trans k l (leaves l) (told rs) (schedule_after ∷ []) g (f l))
        ∙ ap (λ xs. j.phases ++ schedule_before ∷ (told rs ++ xs))
            (sym (farewell-ending (leaves l))),
  )

  -- The callback of a scheduler is told, in either loop, SCHEDULE_BEFORE, then for each turn either
  -- SCHEDULE_IDLE or FIBER_BEFORE and FIBER_AFTER of one fiber, and in the end, of a loop that
  -- ends by itself or by an interruption, SCHEDULE_AFTER.
  pub join-phases :
      (n t : ℕ) (j : Thread Q)
      → ToldInOrder j (join F P n j) × ToldInOrder j (join_with_thread_bind F P n t j)
  unfolding join join_with_thread_bind
  join-phases n t j = (
    close-ToldInOrder j (enter P 0 j) (leave P) (loop (turn F P) n (enter P 0 j)) (enter-phases 0 j)
        leave-phases (loop-TellsRounds (turn F P) n (enter P 0 j) turn-TellsRounds),
    close-ToldInOrder j (enter P t j) (leave_bound P t) (loop (turn_bound F P t) n (enter P t j))
        (enter-phases t j) (leave_bound-phases t)
        (loop-TellsRounds (turn_bound F P t) n (enter P t j) (turn_bound-TellsRounds t)),
  )
