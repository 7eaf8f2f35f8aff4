-- ===== src/Hooker/Poll/Counts.antt =====
-- `poll` of src/EHooker.cpp with one entry: its result.
use cxx_fiber.Prelude.Int.{ℤ, pos, negsuc}
use cxx_fiber.Prelude.{ℕ, ◌≤◌, ◌≡◌, length, ◌||◌, List, [], ◌∷◌, arith, Bool-cases, inl, inr}
use cxx_fiber.IoWaiter.{EventLoop}
use cxx_fiber.Hooker.{Original, Host, Outcome, returned, failed, skips, nap, ◌>>◌, return}
use cxx_fiber.Hooker.Poll.{
  Pollfd, poll, poll_once, await, wait, harvest, collect, all_invalid, is_zero,
}

-- A result for one entry: 0, 1 or an error.
abbrev pub OneAtMost : ℤ → Type 0
OneAtMost (pos n) = n ≤ 1
OneAtMost (negsuc n) = Unit

abbrev pub OneAtMostReturned : {P S : Type 0} → Host P S × Outcome (ℤ × List Pollfd) → Type 0
OneAtMostReturned (h, returned r) = OneAtMost r.0
OneAtMostReturned (h, failed e) = Unit

-- The kernel's `poll` counts entries, and writes to as many as it is given.
abbrev pub CountsOne : {S : Type 0} → (List Pollfd → ℤ → Original S (ℤ × List Pollfd)) → Type 0
CountsOne {S} poll_f =
    (p : Pollfd) (t : ℤ) (s : S) (e : ℕ)
    → OneAtMost (poll_f (p ∷ []) t s e).value.0 × (length (poll_f (p ∷ []) t s e).value.1 ≡ 1)

module _ {P S : Type 0} (L : EventLoop P) (others : Host P S → Host P S)
    (poll_f : List Pollfd → ℤ → Original S (ℤ × List Pollfd)) where
  harvest_one : (p : Pollfd) (h : Host P S) → OneAtMostReturned (harvest L others poll_f (p ∷ []) h)
  unfolding harvest collect
  harvest_one p h = ground arith

  await_one :
      (qs : List Pollfd) (t : ℤ) (h : Host P S)
      → length qs ≡ 1
      → OneAtMostReturned (await L others poll_f qs t h)
  unfolding await
  await_one [] t h one = cc
  await_one (q ∷ q' ∷ qs) t h one = absurd (omega arith)
  await_one (q ∷ []) t h one = elim (Bool-cases (all_invalid (q ∷ []))) [
    | inl invalid ↦ rw invalid (omega arith)
    | inr valid ↦ rw valid (harvest_one q (wait L others poll_f (q ∷ []) t h))
  ]

  poll_once_one :
      CountsOne poll_f
      → (p : Pollfd) (t : ℤ) (h : Host P S)
      → OneAtMostReturned (poll_once L others poll_f (p ∷ []) t h)
  unfolding poll_once
  poll_once_one counts p t h =
      let a = poll_f (p ∷ []) (pos 0) h.kernel h.errno in
      let g = record h { kernel = a.kernel; errno = a.errno } in
      elim (Bool-cases (is_zero a.value.0)) [
        | inl none ↦ rw none (await_one a.value.1 t g (counts p (pos 0) h.kernel h.errno).1)
        | inr some_one ↦ rw some_one (counts p (pos 0) h.kernel h.errno).0
      ]

  nap_one :
      (t : ℤ) (qs : List Pollfd) (h : Host P S)
      → OneAtMostReturned ((nap L others t >> return (pos 0, qs)) h)
  unfolding nap
  nap_one t qs h = ground arith

  -- So does the library's.
  pub poll_one :
      CountsOne poll_f
      → (p : Pollfd) (t : ℤ) (h : Host P S) → OneAtMostReturned (poll L others poll_f (p ∷ []) t h)
  unfolding poll
  poll_one counts p t h = elim (Bool-cases (skips h || is_zero t)) [
    | inl raw ↦ rw raw (counts p t h.kernel h.errno).0
    | inr hooked ↦ elim (Bool-cases (all_invalid (p ∷ []))) [
      | inl invalid ↦ rw (hooked, invalid) (nap_one t (p ∷ []) h)
      | inr valid ↦ rw (hooked, valid) (poll_once_one counts p t h)
    ]
  ]
