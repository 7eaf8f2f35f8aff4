-- ===== src/Hooker/Io/Errors.antt =====
-- src/EHooker.cpp: with which errors the calls of `comm_io_on_fiber` come back.
use cxx_fiber.Prelude.Int.{ℤ, pos, negsuc, is_negative}
use cxx_fiber.Prelude.{
  ℕ, zero, suc, ◌≡◌, ◌≢◌, Bool, true, false, List, [], ◌∷◌, arith, Bool-cases, inl, inr, ◌==◌,
  if◌then◌else◌,
}
use cxx_fiber.IoWaiter.{EventLoop}
use cxx_fiber.FileContext.{Os, FileContext}
use cxx_fiber.Hooker.{
  Original, Host, M, Outcome, returned, failed, skips, original, is_minus_one, e_again,
  get_file_context,
}
use cxx_fiber.Hooker.Chains.{>>=-after}
use cxx_fiber.Hooker.Poll.{Pollfd, poll, is_zero, has_out}
use cxx_fiber.Hooker.Poll.Errors.{NoAgain, poll_error}
use cxx_fiber.Hooker.Io.{
  SysCall, event_of, is_accept, retry, answer, again, settle, wait_io, blocking_io, comm_io, pollfd,
  is_one, timeout_of,
}

-- An outcome that is not -1 with EAGAIN.
abbrev pub NotAgain : {P S : Type 0} → Host P S × Outcome ℤ → Type 0
NotAgain (h, returned r) = is_minus_one r ≡ true → h.errno ≢ e_again
NotAgain (h, failed e) = Unit

module _ {P S : Type 0} (L : EventLoop P) (others : Host P S → Host P S)
    (poll_f : List Pollfd → ℤ → Original S (ℤ × List Pollfd)) (np : NoAgain poll_f) where
  again_lem :
      (x : ℤ) (k : M P S ℤ) (h : Host P S)
      → NotAgain (k h)
      → NotAgain (again L others poll_f (h.errno == e_again) x k h)
  unfolding again
  again_lem x k h n = elim (Bool-cases (is_minus_one x)) [
    | inl m ↦ elim (Bool-cases (h.errno == e_again)) [
      | inl e ↦ rw (m, e) n
      | inr e ↦ rw (m, e) (λ _. ground arith)
    ]
    | inr m ↦ rw m (λ e. cc)
  ]

  answer_lem :
      (fn : Original S ℤ) (k : M P S ℤ) (r : ℤ) (h : Host P S)
      → ((g : Host P S) → NotAgain (k g))
      → (is_minus_one r ≡ true → h.errno ≢ e_again)
      → NotAgain (answer L others poll_f fn k r h)
  unfolding answer
  answer_lem fn k r h n e = elim (Bool-cases (is_one r)) [
    | inl one ↦
        let a = fn h.kernel h.errno in
        let g = record h { kernel = a.kernel; errno = a.errno } in
        rw one (again_lem a.value k g (n g))
    | inr more ↦ elim (Bool-cases (is_zero r)) [
      | inl none ↦ rw (more, none) (λ _. omega arith)
      | inr error ↦ rw (more, error) e
    ]
  ]

  retry-NotAgain :
      (n : ℕ) (fn : Original S ℤ) (event fd : ℕ) (millis : ℤ) (h : Host P S)
      → NotAgain (retry L others poll_f n fn event fd millis h)
  unfolding retry
  retry-NotAgain zero fn event fd millis h = tt
  retry-NotAgain (suc n) fn event fd millis h =
      >>=-after NotAgain (poll L others poll_f (pollfd fd event ∷ []) millis)
        (λ a. answer L others poll_f fn (retry L others poll_f n fn event fd millis) a.0) h
        (λ a h' e.
          answer_lem fn (retry L others poll_f n fn event fd millis) a.0 h'
            (retry-NotAgain n fn event fd millis)
            (poll_error L others poll_f np (pollfd fd event ∷ []) millis h h' a.0 a.1 e))
        (λ e h' _. tt)

module _ {P S : Type 0} (os : Os S) where
  settle_lem :
      (accepting : Bool) (r : ℤ) (h : Host P S)
      → (is_minus_one r ≡ true → h.errno ≢ e_again)
      → NotAgain (settle os accepting r h)
  unfolding settle
  settle_lem true (pos n) h e = λ f. cc
  settle_lem true (negsuc n) h e = e
  settle_lem false r h e = e

module _ {P S : Type 0} (L : EventLoop P) (others : Host P S → Host P S)
    (poll_f : List Pollfd → ℤ → Original S (ℤ × List Pollfd)) (np : NoAgain poll_f) (os : Os S)
    (align_up : ℕ → ℕ → ℕ) where
  wait_io-NotAgain :
      (n : ℕ) (fn : Original S ℤ) (call : SysCall) (fd : ℕ) (c : FileContext) (h : Host P S)
      → NotAgain (wait_io L others poll_f os align_up n fn call fd c h)
  unfolding wait_io
  wait_io-NotAgain n fn call fd c h =
      >>=-after NotAgain
        (retry L others poll_f n fn (event_of call) fd (timeout_of (event_of call) c))
        (settle os (is_accept call)) h
        (λ r h' e. settle_lem os (is_accept call) r h' (
          rw e at (
            retry-NotAgain L others poll_f np n fn (event_of call) fd (timeout_of (event_of call) c)
              h)))
        (λ e h' _. tt)

  blocking_io-NotAgain :
      (n : ℕ) (fn : Original S ℤ) (call : SysCall) (fd : ℕ) (c : FileContext) (h : Host P S)
      → NotAgain (blocking_io L others poll_f os align_up n fn call fd c h)
  unfolding blocking_io
  blocking_io-NotAgain n fn call fd c h = elim (Bool-cases (has_out (event_of call))) [
    | inl out ↦ rw out (
        >>=-after NotAgain (original fn)
          (λ r.
            if is_negative r
            then wait_io L others poll_f os align_up n fn call fd c
            else settle os (is_accept call) r)
          h
          (λ r h' e. elim (Bool-cases (is_negative r)) [
            | inl m ↦ rw m (wait_io-NotAgain n fn call fd c h')
            | inr m ↦ rw m (settle_lem os (is_accept call) r h' (ground arith))
          ])
          (λ e h' _. tt))
    | inr wait ↦ rw wait (wait_io-NotAgain n fn call fd c h)
  ]

  comm_io-NotAgain :
      (n : ℕ) (fn : Original S ℤ) (call : SysCall) (fd : ℕ) (c : FileContext) (h h1 : Host P S)
      → skips h ≡ false
      → os.is_stream_file h.kernel fd ≡ true
      → get_file_context os align_up fd h ≡ (h1, returned c)
      → c.user_non_blocked ≡ false
      → NotAgain (comm_io L others poll_f os align_up n fn call fd h)
  unfolding comm_io
  comm_io-NotAgain n fn call fd c h h1 run stream got blocks =
      rw (run, stream)
        (>>=-after NotAgain (get_file_context os align_up fd)
          (λ d.
            if d.user_non_blocked
            then original fn
            else blocking_io L others poll_f os align_up n fn call fd d)
          h
          (λ d g e'.
            let same : d.user_non_blocked ≡ false = cc in
            rw same (blocking_io-NotAgain n fn call fd d g))
          (λ e h' _. tt))

  -- On a file that the program has left in the blocking mode, a call in a fiber never comes back with
  -- EAGAIN, whatever the original call answers and however often, and whatever the other fibers do.
  pub comm_io-never_again :
      (n : ℕ) (fn : Original S ℤ) (call : SysCall) (fd : ℕ) (c : FileContext) (h h1 h' : Host P S)
      (r : ℤ)
      → skips h ≡ false
      → os.is_stream_file h.kernel fd ≡ true
      → get_file_context os align_up fd h ≡ (h1, returned c)
      → c.user_non_blocked ≡ false
      → comm_io L others poll_f os align_up n fn call fd h ≡ (h', returned r)
      → is_minus_one r ≡ true
      → h'.errno ≢ e_again
  comm_io-never_again n fn call fd c h h1 h' r run stream got blocks e =
      rw e at (comm_io-NotAgain n fn call fd c h h1 run stream got blocks)
