-- ===== src/Hooker/Poll/Errors.antt =====
-- `poll` of src/EHooker.cpp: the errors that it passes on.
use cxx_fiber.Prelude.Int.{ℤ, pos}
use cxx_fiber.Prelude.{ℕ, ◌≡◌, ◌≢◌, refl, true, false, ◌||◌, List, arith, Bool-cases, inl, inr}
use cxx_fiber.IoWaiter.{EventLoop}
use cxx_fiber.Hooker.{
  Original, Host, returned, failed, unfinished, is_minus_one, e_again, nap, skips,
}
use cxx_fiber.Hooker.Poll.{Pollfd, poll, poll_once, await, harvest, all_invalid, is_zero}

-- The kernel's `poll` has no error EAGAIN.
abbrev pub NoAgain : {S : Type 0} → (List Pollfd → ℤ → Original S (ℤ × List Pollfd)) → Type 0
NoAgain {S} poll_f =
    (fds : List Pollfd) (t : ℤ) (s : S) (e : ℕ)
    → is_minus_one (poll_f fds t s e).value.0 ≡ true
    → (poll_f fds t s e).errno ≢ e_again

module _ {P S : Type 0} (L : EventLoop P) (others : Host P S → Host P S)
    (poll_f : List Pollfd → ℤ → Original S (ℤ × List Pollfd)) where
  -- `poll` has no loop that could run out of fuel.
  pub poll_finishes :
      (fds : List Pollfd) (t : ℤ) (h : Host P S)
      → (poll L others poll_f fds t h).1 ≢ failed unfinished
  unfolding poll poll_once await harvest nap
  poll_finishes fds t h = ground arith

  pub poll_error :
      NoAgain poll_f
      → (fds : List Pollfd) (t : ℤ) (h h' : Host P S) (r : ℤ) (qs : List Pollfd)
      → poll L others poll_f fds t h ≡ (h', returned (r, qs))
      → is_minus_one r ≡ true
      → h'.errno ≢ e_again
  unfolding poll poll_once await harvest nap
  poll_error np fds t h h' r qs e m =
      ground (arith, np fds t h.kernel h.errno, np fds (pos 0) h.kernel h.errno)

  -- Where the kernel always finds one file ready, so does `poll`.
  pub poll_ready :
      ((fds : List Pollfd) (t : ℤ) (s : S) (e : ℕ) → (poll_f fds t s e).value ≡ (pos 1, fds))
      → (fds : List Pollfd) (t : ℤ) (h : Host P S) → all_invalid fds ≡ false
      → (g : Host P S) × (poll L others poll_f fds t h ≡ (g, returned (pos 1, fds)))
  unfolding poll poll_once
  poll_ready ready fds t h valid = elim (Bool-cases (skips h || is_zero t)) [
    | inl raw ↦
        let a = poll_f fds t h.kernel h.errno in
        (
          record h { kernel = a.kernel; errno = a.errno },
          rw (raw, ready fds t h.kernel h.errno) refl,
        )
    | inr hooked ↦
        let a = poll_f fds (pos 0) h.kernel h.errno in
        (
          record h { kernel = a.kernel; errno = a.errno },
          rw (hooked, valid, ready fds (pos 0) h.kernel h.errno) refl,
        )
  ]
