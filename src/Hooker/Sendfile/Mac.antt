-- ===== src/Hooker/Sendfile/Mac.antt =====
-- src/EHooker.cpp: sendfile, in the macOS version.
use cxx_fiber.Prelude.Int.{ℤ, pos, negsuc, ◌+ℤ◌, ◌-ℤ◌}
use cxx_fiber.Prelude.{
  ℕ, zero, suc, not, ◌&&◌, ◌||◌, ◌==◌, Option, none, some, List, [], ◌∷◌, if◌then◌else◌,
}
use cxx_fiber.IoWaiter.{EventLoop}
use cxx_fiber.FileContext.{Os}
use cxx_fiber.Hooker.{
  Host, Original, M, ◌>>=◌, return, return_with, fail, unfinished, original, skips, is_minus_one,
  get_file_context,
}
use cxx_fiber.Hooker.Poll.{Pollfd, poll, poll_out, is_zero, is_positive}
use cxx_fiber.Hooker.Io.{pollfd, is_one, or_forever}

-- EAGAIN, which is EWOULDBLOCK, and ETIMEDOUT of macOS.
abbrev e_again : ℕ
e_again = 35

abbrev e_timed_out : ℕ
e_timed_out = 60

-- `len ? *len : 0`.
abbrev asked : Option ℤ → ℤ
asked none = pos 0
asked (some n) = n

-- An offset and the bytes that are left, after `sent`.
abbrev moved : ℤ → ℤ × ℤ → ℤ × ℤ
moved sent (offset, left) =
    if is_positive sent then (offset +ℤ sent, left -ℤ sent) else (offset, left)

-- The original call: the offset and `len` with what stands there, and the same afterwards.
abbrev pub Sendfile : Type 0 → Type 0
Sendfile S = ℤ → Option ℤ → Original S (ℤ × Option ℤ)

module _ {P S : Type 0} (L : EventLoop P) (others : Host P S → Host P S)
    (poll_f : List Pollfd → ℤ → Original S (ℤ × List Pollfd)) (sendfile_f : Sendfile S) where
  -- `again` goes back to RETRY with the new offset and the bytes that are left.
  unfoldable pub proceed : (ℤ × ℤ → M P S ℤ) → ℤ × ℤ → ℤ × Option ℤ → M P S ℤ
  proceed again place (r, sent) h =
      let place' = moved (asked sent) place in
      if is_minus_one r && h.errno == e_again && is_positive place'.1
      then again place' h
      else return r h

  unfoldable pub step : (ℤ × ℤ → M P S ℤ) → ℤ × ℤ → ℤ → M P S ℤ
  unfolding proceed
  step again place r =
      if is_one r
      then (original (sendfile_f place.0 (some place.1)) >>= proceed again place)
      else if is_zero r
      then return_with e_timed_out (negsuc 0)
      else return r

  -- The loop from RETRY on.
  unfoldable pub round : ℕ → ℕ → ℤ → ℤ × ℤ → M P S ℤ
  unfolding step
  round zero s millis place = fail unfinished
  round (suc n) s millis place = poll L others poll_f (pollfd s poll_out ∷ []) millis >>= λ a.
      step (λ p h. round n s millis p h) place a.0

  abbrev finish : ℤ → M P S ℤ
  finish r = if is_zero r then return_with 0 r else return r

  -- The result comes with what stands behind `len` afterwards, which the loop never writes.
  unfoldable pub sendfile : Os S → (ℕ → ℕ → ℕ) → ℕ → ℕ → ℤ → Option ℤ → M P S (ℤ × Option ℤ)
  unfolding round
  sendfile os align_up n s offset len h =
      if skips h || not (os.is_stream_file h.kernel s)
      then original (sendfile_f offset len) h
      else (get_file_context os align_up s >>= λ c.
            if c.user_non_blocked
            then original (sendfile_f offset len)
            else (round n s (or_forever c.send_timeout) (offset, asked len) >>= finish) >>= λ r.
                return (r, len))
          h
