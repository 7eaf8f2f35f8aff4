-- ===== src/Hooker/Sleeps.antt =====
-- src/EHooker.cpp: sleep, usleep and nanosleep.
use cxx_fiber.Prelude.Int.{ℤ, pos, negsuc}
use cxx_fiber.Prelude.{
  ℕ, ◌+◌, ◌*◌, ◌/◌, ◌%◌, ◌^◌, ◌≤◌, ◌<◌, ◌≡◌, ◌↔◌, Option, none, some, false, arith, refl,
  if◌then◌else◌,
}
use cxx_fiber.IoWaiter.{EventLoop}
use cxx_fiber.Hooker.{Host, Original, M, ◌>>◌, return, return_with, original, skips, nap, e_inval}

-- `struct timespec`.
pub record Timespec : Type 0 where
  pub tv_sec : ℕ
  pub tv_nsec : ℕ

module _ {P S : Type 0} (L : EventLoop P) (others : Host P S → Host P S) where
  -- `unsigned int` seconds: the product wraps before it becomes a long.
  pub sleep : Original S ℕ → ℕ → M P S ℕ
  sleep sleep_f seconds h =
      if skips h
      then original sleep_f h
      else (nap L others (pos ((seconds * 1000) % 2 ^ 32)) >> return 0) h

  pub usleep : Original S ℤ → ℕ → M P S ℤ
  usleep usleep_f usec h =
      if skips h
      then original usleep_f h
      else (nap L others (pos (usec / 1000)) >> return (pos 0)) h

  pub nanosleep : Original S ℤ → Option Timespec → M P S ℤ
  nanosleep nanosleep_f none h = return_with e_inval (negsuc 0) h
  nanosleep nanosleep_f (some req) h =
      if skips h
      then original nanosleep_f h
      else (nap L others (pos (req.tv_sec * 1000 + req.tv_nsec / 1000000)) >> return (pos 0)) h

  -- In a fiber `sleep` pauses for some number of milliseconds, which is never more than what is asked
  -- for, and is that exactly up to 4294967 seconds; above, the product overflows and the pause is
  -- shorter.
  sleep_wraps :
      (sleep_f : Original S ℕ) (seconds : ℕ) (h : Host P S)
      → skips h ≡ false
      → (n : ℕ) × (sleep sleep_f seconds h ≡ (nap L others (pos n) >> return 0) h)
        × (n ≤ seconds * 1000)
        × ((n ≡ seconds * 1000) ↔ (seconds < 4294968))
  unfolding sleep
  sleep_wraps sleep_f seconds h run = (
    (seconds * 1000) % 2 ^ 32,
    rw run refl,
    omega arith,
    ((λ e. omega arith), (λ lt. omega arith)),
  )

  -- In a fiber `usleep` and `nanosleep` pause for whole milliseconds, rounded down: less than a
  -- millisecond short of what is asked for.
  pub short_sleeps_round_down :
      (usleep_f nanosleep_f : Original S ℤ) (usec : ℕ) (req : Timespec) (h : Host P S)
      → skips h ≡ false
      → (m n : ℕ) × (usleep usleep_f usec h ≡ (nap L others (pos m) >> return (pos 0)) h)
        × (m * 1000 ≤ usec)
        × (usec < (m + 1) * 1000)
        × (nanosleep nanosleep_f (some req) h ≡ (nap L others (pos n) >> return (pos 0)) h)
        × (n * 1000000 ≤ req.tv_sec * 1000000000 + req.tv_nsec)
        × (req.tv_sec * 1000000000 + req.tv_nsec < (n + 1) * 1000000)
  unfolding usleep nanosleep
  short_sleeps_round_down usleep_f nanosleep_f usec req h run = (
    usec / 1000,
    req.tv_sec * 1000 + req.tv_nsec / 1000000,
    rw run refl,
    omega arith,
    omega arith,
    rw run refl,
    omega arith,
    omega arith,
  )
