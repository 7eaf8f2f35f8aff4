-- ===== src/Hooker/Io/Rounds.antt =====
-- src/EHooker.cpp: how often the loop of `comm_io_on_fiber` runs.
use cxx_fiber.Prelude.Int.{ℤ, pos, negsuc, is_negative}
use cxx_fiber.Prelude.{
  ℕ, suc, ◌≡◌, ◌≢◌, Bool, true, false, not, ◌&&◌, ◌||◌, List, [], ◌∷◌, arith, refl, ap, ◌∙◌,
  Bool-cases, inl, inr, ◌==◌, if◌then◌else◌,
}
use cxx_fiber.IoWaiter.{EventLoop}
use cxx_fiber.FileContext.{Os, FileContext}
use cxx_fiber.Hooker.{
  Original, Host, M, Outcome, returned, failed, unfinished, skips, original, is_minus_one, e_again,
  get_file_context,
}
use cxx_fiber.Hooker.Chains.{>>=-after, >>=-cong, >>=-head}
use cxx_fiber.Hooker.Poll.{Pollfd, poll, has_out}
use cxx_fiber.Hooker.Poll.Errors.{poll_finishes}
use cxx_fiber.Hooker.Io.{
  SysCall, event_of, is_accept, retry, answer, again, settle, wait_io, blocking_io, comm_io, pollfd,
  is_one, timeout_of,
}

-- It did not run out of fuel.
abbrev pub Finished : {P S : Type 0} → Host P S × Outcome ℤ → Type 0
Finished x = x.1 ≢ failed unfinished

-- The original call answers -1 with EAGAIN.
abbrev pub says_again : {S : Type 0} → Original S ℤ → S → ℕ → Bool
says_again fn s e = is_minus_one (fn s e).value && (fn s e).errno == e_again

module _ {P S : Type 0} (L : EventLoop P) (others : Host P S → Host P S)
    (poll_f : List Pollfd → ℤ → Original S (ℤ × List Pollfd)) (fn : Original S ℤ) where
  -- Where `poll` has found the file ready, the original call does not answer EAGAIN.
  abbrev pub Ready : ℕ → ℕ → Type 0
  Ready event fd =
      (millis : ℤ) (h h' : Host P S) (a : ℤ × List Pollfd)
      → poll L others poll_f (pollfd fd event ∷ []) millis h ≡ (h', returned a)
      → is_one a.0 ≡ true
      → says_again fn h'.kernel h'.errno ≡ false

  answer_same :
      (k l : M P S ℤ) (r : ℤ) (h : Host P S)
      → (is_one r ≡ true → says_again fn h.kernel h.errno ≡ false)
      → answer L others poll_f fn k r h ≡ answer L others poll_f fn l r h
  unfolding answer again
  answer_same k l r h a = elim (Bool-cases (is_one r)) [
    | inl one ↦ rw (one, a one) refl
    | inr more ↦ rw more refl
  ]

  answer-Finished :
      (k : M P S ℤ) (r : ℤ) (h : Host P S)
      → (is_one r ≡ true → says_again fn h.kernel h.errno ≡ false)
      → Finished (answer L others poll_f fn k r h)
  unfolding answer again
  answer-Finished k r h a = elim (Bool-cases (is_one r)) [
    | inl one ↦ rw (one, a one) (λ e. cc)
    | inr more ↦ ground arith
  ]

  retry_one_round :
      (n event fd : ℕ) (millis : ℤ) (h : Host P S)
      → Ready event fd
      → (retry L others poll_f (suc n) fn event fd millis h
          ≡ retry L others poll_f 1 fn event fd millis h)
        × Finished (retry L others poll_f (suc n) fn event fd millis h)
  unfolding retry
  retry_one_round n event fd millis h ready =
      let ask = poll L others poll_f (pollfd fd event ∷ []) millis in
      let k = retry L others poll_f n fn event fd millis in
      let l = retry L others poll_f 0 fn event fd millis in
      (
        >>=-cong ask (λ a. answer L others poll_f fn k a.0) (λ a. answer L others poll_f fn l a.0) h
            (λ a h' e. answer_same k l a.0 h' (ready millis h h' a e)),
        >>=-after Finished ask (λ a. answer L others poll_f fn k a.0) h
            (λ a h' e. answer-Finished k a.0 h' (ready millis h h' a e))
            (λ e h' r f.
              let same : e ≡ unfinished = cc in
              poll_finishes L others poll_f (pollfd fd event ∷ []) millis h
                (ap (λ x. x.1) r ∙ ap failed same)),
      )

module _ {P S : Type 0} (os : Os S) where
  settle-Finished : (accepting : Bool) (r : ℤ) (h : Host P S) → Finished (settle os accepting r h)
  unfolding settle
  settle-Finished true (pos n) h = λ e. cc
  settle-Finished true (negsuc n) h = λ e. cc
  settle-Finished false r h = λ e. cc

  get_file_context-Finished :
      (align_up : ℕ → ℕ → ℕ) (fd : ℕ) (h : Host P S)
      → (get_file_context os align_up fd h).1 ≢ failed unfinished
  unfolding get_file_context
  get_file_context-Finished align_up fd h = ground arith

module _ {P S : Type 0} (L : EventLoop P) (others : Host P S → Host P S)
    (poll_f : List Pollfd → ℤ → Original S (ℤ × List Pollfd)) (fn : Original S ℤ) (os : Os S)
    (align_up : ℕ → ℕ → ℕ) (call : SysCall) (fd : ℕ)
    (ready : Ready L others poll_f fn (event_of call) fd) (n : ℕ) where
  wait_io_one_round :
      (c : FileContext) (h : Host P S)
      → (wait_io L others poll_f os align_up (suc n) fn call fd c h
          ≡ wait_io L others poll_f os align_up 1 fn call fd c h)
        × Finished (wait_io L others poll_f os align_up (suc n) fn call fd c h)
  unfolding wait_io
  wait_io_one_round c h =
      let t = timeout_of (event_of call) c in
      let one = retry_one_round L others poll_f fn n (event_of call) fd t h ready in
      let m = retry L others poll_f (suc n) fn (event_of call) fd t in
      (
        >>=-head m (retry L others poll_f 1 fn (event_of call) fd t) (settle os (is_accept call)) h
            one.0,
        >>=-after Finished m (settle os (is_accept call)) h
            (λ r h' _. settle-Finished os (is_accept call) r h')
            (λ e h' r f. one.1 (ap (λ x. x.1) r ∙ f)),
      )

  blocking_io_one_round :
      (c : FileContext) (h : Host P S)
      → (blocking_io L others poll_f os align_up (suc n) fn call fd c h
          ≡ blocking_io L others poll_f os align_up 1 fn call fd c h)
        × Finished (blocking_io L others poll_f os align_up (suc n) fn call fd c h)
  unfolding blocking_io
  blocking_io_one_round c h = elim (Bool-cases (has_out (event_of call))) [
    | inl out ↦
        let rest = λ (k : ℕ) (r : ℤ).
          if is_negative r
          then wait_io L others poll_f os align_up k fn call fd c
          else settle os (is_accept call) r in
        rw out (
          >>=-cong (original fn) (rest (suc n)) (rest 1) h (λ r h' _.
              elim (Bool-cases (is_negative r)) [
                | inl m ↦ rw m (wait_io_one_round c h').0
                | inr m ↦ rw m refl
              ]),
          >>=-after Finished (original fn) (rest (suc n)) h
              (λ r h' _. elim (Bool-cases (is_negative r)) [
                | inl m ↦ rw m (wait_io_one_round c h').1
                | inr m ↦ rw m (settle-Finished os (is_accept call) r h')
              ])
              (λ e h' f. cc),
        )
    | inr wait ↦ rw wait (wait_io_one_round c h)
  ]

  -- If the original call does not answer EAGAIN where `poll` has found the file ready, one round of
  -- the loop is enough: more fuel makes no difference, and the call ends.
  comm_io_one_round :
      (h : Host P S)
      → (comm_io L others poll_f os align_up (suc n) fn call fd h
          ≡ comm_io L others poll_f os align_up 1 fn call fd h)
        × Finished (comm_io L others poll_f os align_up (suc n) fn call fd h)
  unfolding comm_io
  comm_io_one_round h =
      let rest = λ (k : ℕ) (c : FileContext).
        if c.user_non_blocked
        then original fn
        else blocking_io L others poll_f os align_up k fn call fd c in
      elim (Bool-cases (skips h || not (os.is_stream_file h.kernel fd))) [
        | inl skip ↦ rw skip (refl, λ e. cc)
        | inr run ↦ rw run (
          >>=-cong (get_file_context os align_up fd) (rest (suc n)) (rest 1) h (λ c h' _.
              elim (Bool-cases c.user_non_blocked) [
                | inl u ↦ rw u refl
                | inr u ↦ rw u (blocking_io_one_round c h').0
              ]),
          >>=-after Finished (get_file_context os align_up fd) (rest (suc n)) h
              (λ c h' _. elim (Bool-cases c.user_non_blocked) [
                | inl u ↦ rw u (λ e. cc)
                | inr u ↦ rw u (blocking_io_one_round c h').1
              ])
              (λ e h' r f.
                let same : e ≡ unfinished = cc in
                get_file_context-Finished os align_up fd h (ap (λ x. x.1) r ∙ ap failed same)),
        )
      ]
