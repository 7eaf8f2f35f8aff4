-- ===== src/Hooker/Io/Accepted.antt =====
-- src/EHooker.cpp: the mode of a socket that `accept` returns.
use cxx_fiber.Prelude.Int.{ℤ, pos, negsuc}
use cxx_fiber.Prelude.{ℕ, ◌≡◌, ◌<◌, ◌^◌, true, false, List, arith, refl, inr, if◌then◌else◌}
use cxx_fiber.IoWaiter.{EventLoop}
use cxx_fiber.FileContext.{Os, FileContext, has_nonblock, without_nonblock}
use cxx_fiber.FileContext.Modes.{SetsFlags}
use cxx_fiber.Hooker.{Original, Host, Outcome, returned, failed, skips, original, get_file_context}
use cxx_fiber.Hooker.Chains.{>>=-after}
use cxx_fiber.Hooker.Poll.{Pollfd}
use cxx_fiber.Hooker.Io.{
  accepts, retry, settle, wait_io, blocking_io, comm_io, timeout_of, event_of, is_accept,
}

without_has : (flags : ℕ) → has_nonblock (without_nonblock flags) ≡ false
without_has flags = ground arith

module _ {P S : Type 0} (os : Os S) (socket : ℕ) where
  -- If it is this socket that is returned, it is in the blocking mode.
  abbrev pub BlockingSocket : Host P S × Outcome ℤ → Type 0
  BlockingSocket (h, returned (pos n)) = n ≡ socket → has_nonblock (os.get_flags h.kernel n) ≡ false
  BlockingSocket (h, returned (negsuc n)) = Unit
  BlockingSocket (h, failed e) = Unit

  settle-BlockingSocket :
      SetsFlags os
      → ((s : S) → os.get_flags s socket < 2 ^ 31)
      → (r : ℤ) (h : Host P S) → BlockingSocket (settle os true r h)
  unfolding settle
  settle-BlockingSocket ok small (pos n) h = λ e.
      let set = without_nonblock (os.get_flags h.kernel n) in
      rw (ok h.kernel n set (rw e (small h.kernel)) (inr refl))
        (without_has (os.get_flags h.kernel n))
  settle-BlockingSocket ok small (negsuc n) h = tt

module _ {P S : Type 0} (L : EventLoop P) (others : Host P S → Host P S)
    (poll_f : List Pollfd → ℤ → Original S (ℤ × List Pollfd)) (os : Os S) (align_up : ℕ → ℕ → ℕ)
    (ok : SetsFlags os) (socket : ℕ) (small : (s : S) → os.get_flags s socket < 2 ^ 31) where
  blocking_io-BlockingSocket :
      (n : ℕ) (fn : Original S ℤ) (fd : ℕ) (c : FileContext) (h : Host P S)
      → BlockingSocket os socket (blocking_io L others poll_f os align_up n fn accepts fd c h)
  unfolding blocking_io wait_io event_of is_accept
  blocking_io-BlockingSocket n fn fd c h =
      >>=-after (BlockingSocket os socket) (retry L others poll_f n fn 1 fd (timeout_of 1 c))
        (settle os true) h (λ r h' _. settle-BlockingSocket os socket ok small r h') (λ e h' _. tt)

  accept-BlockingSocket :
      (n : ℕ) (fn : Original S ℤ) (fd : ℕ) (c : FileContext) (h h1 : Host P S)
      → skips h ≡ false
      → os.is_stream_file h.kernel fd ≡ true
      → get_file_context os align_up fd h ≡ (h1, returned c)
      → c.user_non_blocked ≡ false
      → BlockingSocket os socket (comm_io L others poll_f os align_up n fn accepts fd h)
  unfolding comm_io
  accept-BlockingSocket n fn fd c h h1 run stream got blocks =
      rw (run, stream)
        (>>=-after (BlockingSocket os socket) (get_file_context os align_up fd)
          (λ d.
            if d.user_non_blocked
            then original fn
            else blocking_io L others poll_f os align_up n fn accepts fd d)
          h
          (λ d g e'.
            let same : d.user_non_blocked ≡ false = cc in
            rw same (blocking_io-BlockingSocket n fn fd d g))
          (λ e h' _. tt))

  -- While the listening file is non-blocking in the kernel and blocking for the program, `accept` in a
  -- fiber returns a socket that stays open in the blocking mode.
  accept-blocking :
      (n : ℕ) (fn : Original S ℤ) (fd : ℕ) (c : FileContext) (h h1 h' : Host P S)
      → skips h ≡ false
      → os.is_stream_file h.kernel fd ≡ true
      → get_file_context os align_up fd h ≡ (h1, returned c)
      → c.user_non_blocked ≡ false
      → comm_io L others poll_f os align_up n fn accepts fd h ≡ (h', returned (pos socket))
      → has_nonblock (os.get_flags h'.kernel socket) ≡ false
  accept-blocking n fn fd c h h1 h' run stream got blocks e =
      let b : BlockingSocket os socket (h', returned (pos socket)) =
        rw e at (accept-BlockingSocket n fn fd c h h1 run stream got blocks) in
      b refl
