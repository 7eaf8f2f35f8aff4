-- ===== src/Blocker/Timed/Counts.antt =====
-- src/EFiberBlocker.cpp: how often a waiter stands in the wait queue, and that calls of others do not put
-- it there.
use cxx_fiber.Prelude.{
  ℕ, suc, ◌+◌, ◌≤◌, ◌≡◌, ◌≢◌, refl, ◌∙◌, true, false, ltb, if◌then◌else◌, List, [], ◌∷◌, ◌++◌,
  arith,
}
use cxx_fiber.Blocker.{
  Waiter, thread, fiber, Reply, parked, Call, waits_thread, swaps_out, checks, tries, wakes,
}
use cxx_fiber.Blocker.Permits.{arrivals, arrival}
use cxx_fiber.Blocker.Timed.{same, has, without}

abbrev pub count : Waiter → List Waiter → ℕ
count w [] = 0
count w (v ∷ vs) = if same w v then suc (count w vs) else count w vs

pub count-append : (w : Waiter) (xs ys : List Waiter) → count w (xs ++ ys) ≡ count w xs + count w ys
count-append w [] ys = omega arith
count-append w (v ∷ vs) ys = ground (arith, count-append w vs ys)

pub same_refl : (w : Waiter) → same w w ≡ true
unfolding same
same_refl thread = refl
same_refl (fiber f) = ground arith

pub count_self : (w : Waiter) → count w (w ∷ []) ≡ 1
count_self w = rw (same_refl w) (omega arith)

pub has-count : (w : Waiter) (xs : List Waiter) → has w xs ≡ ltb 0 (count w xs)
has-count w [] = refl
has-count w (v ∷ vs) = ground (arith, has-count w vs)

pub absent_count : (w : Waiter) (xs : List Waiter) → has w xs ≡ false → count w xs ≡ 0
absent_count w xs e = ground (arith, has-count w xs)

pub count-without : (w : Waiter) (xs : List Waiter) → count w xs ≤ 1 → count w (without w xs) ≡ 0
count-without w [] h = refl
count-without w (v ∷ vs) h = ground (arith, count-without w vs)

-- The call does not put this entry into the queue: that of another fiber, and for the entry of the
-- threads none that a thread makes to wait.
abbrev pub IsOther : Waiter → Call → Type 0
IsOther thread waits_thread = ⊥
IsOther (fiber f) (swaps_out g) = f ≢ g
IsOther _ _ = Unit

abbrev pub AreOthers : Waiter → List Call → Type 0
AreOthers w [] = Unit
AreOthers w (c ∷ cs) = IsOther w c × AreOthers w cs

arrival_other : (w : Waiter) (c : Call) (r : Reply) → IsOther w c → count w (arrival c r) ≡ 0
unfolding arrival same
arrival_other w checks r h = refl
arrival_other w tries r h = refl
arrival_other w wakes r h = refl
arrival_other thread waits_thread parked h = absurd h
arrival_other (fiber t) waits_thread parked h = refl
arrival_other thread (swaps_out u) parked h = refl
arrival_other (fiber t) (swaps_out u) parked h = ground arith
arrival_other w waits_thread _ h = refl
arrival_other w (swaps_out u) _ h = refl

pub arrivals_others :
    (w : Waiter) (cs : List Call) (rs : List Reply) → AreOthers w cs → count w (arrivals cs rs) ≡ 0
unfolding arrivals
arrivals_others w [] rs h = refl
arrivals_others w (c ∷ cs) [] h = refl
arrivals_others w (c ∷ cs) (r ∷ rs) h =
    count-append w (arrival c r) (arrivals cs rs)
    ∙ omega (arith, arrival_other w c r h.0, arrivals_others w cs rs h.1)
