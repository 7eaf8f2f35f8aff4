-- ===== src/Hooker/Sendfile.antt =====
-- src/EHooker.cpp: sendfile, in the Linux version.
pub mod Rounds
pub mod Mac
use cxx_fiber.Prelude.Int.{ℤ, pos, negsuc, is_negative}
use cxx_fiber.Prelude.{
  ℕ, zero, suc, ◌+◌, ◌-◌, ◌%◌, ◌^◌, Bool, true, false, not, ◌&&◌, ◌||◌, ◌==◌, ltb, Option, none,
  some, List, [], ◌∷◌, if◌then◌else◌,
}
use cxx_fiber.IoWaiter.{EventLoop}
use cxx_fiber.FileContext.{Os, FileContext}
use cxx_fiber.Hooker.{
  Host, Original, M, ◌>>=◌, ◌>>◌, return, return_with, fail, unfinished, original, skips,
  is_minus_one, get_file_context, e_again, e_timed_out,
}
use cxx_fiber.Hooker.Poll.{Pollfd, poll, poll_out, is_zero}
use cxx_fiber.Hooker.Io.{pollfd, is_one, or_forever}

-- The bytes that a call has sent.
abbrev pub taken : ℤ → ℕ
taken (pos n) = n
taken (negsuc n) = 0

-- `offset ? *offset : 0`, whose address is passed on.
abbrev pub start : Option ℕ → Option ℕ
start none = some 0
start (some o) = some o

-- What stands behind `offset` at the end.
abbrev pub stored : Option ℕ → Option ℕ → Option ℕ
stored none o = none
stored (some _) o = o

-- `if (ret > 0) count -= ret`, on a `size_t`.
abbrev pub less : ℕ → ℤ → ℕ
less count x = (count + (2 ^ 64 - taken x)) % 2 ^ 64

module _ {P S : Type 0} (L : EventLoop P) (others : Host P S → Host P S)
    (poll_f : List Pollfd → ℤ → Original S (ℤ × List Pollfd))
    (sendfile_f : Option ℕ → ℕ → Original S (ℤ × Option ℕ)) where
  -- After a call: another round, or the end with its result.
  pub proceed : (Option ℕ → ℕ → M P S (ℤ × Option ℕ)) → ℕ → ℤ × Option ℕ → M P S (ℤ × Option ℕ)
  proceed again count (x, o) h =
      let left = less count x in
      if (not (is_negative x) && ltb 0 left || (is_minus_one x && h.errno == e_again)) && ltb 0 left
      then again o left h
      else return (x, o) h

  pub step : (Option ℕ → ℕ → M P S (ℤ × Option ℕ)) → Option ℕ → ℕ → ℤ → M P S (ℤ × Option ℕ)
  unfolding proceed
  step again o count r =
      if is_one r
      then (original (sendfile_f o count) >>= proceed again count)
      else if is_zero r
      then return_with e_timed_out (negsuc 0, o)
      else return (r, o)

  -- The loop from RETRY on.
  pub round : ℕ → ℕ → ℤ → Option ℕ → ℕ → M P S (ℤ × Option ℕ)
  unfolding step
  round zero out_fd millis o count = fail unfinished
  round (suc n) out_fd millis o count =
      poll L others poll_f (pollfd out_fd poll_out ∷ []) millis >>= λ a.
      step (λ p c h. round n out_fd millis p c h) o count a.0

  -- The end of the call.
  pub finish : Option ℕ → ℤ × Option ℕ → M P S (ℤ × Option ℕ)
  finish offset (r, o) =
      if is_zero r then return_with 0 (r, stored offset o) else return (r, stored offset o)

  pub sendfile : Os S → (ℕ → ℕ → ℕ) → ℕ → ℕ → Option ℕ → ℕ → M P S (ℤ × Option ℕ)
  unfolding round finish
  sendfile os align_up n out_fd offset count h =
      if skips h || not (os.is_stream_file h.kernel out_fd)
      then original (sendfile_f offset count) h
      else (get_file_context os align_up out_fd >>= λ c.
            if c.user_non_blocked
            then original (sendfile_f offset count)
            else round n out_fd (or_forever c.send_timeout) (start offset) count >>= finish offset)
          h
