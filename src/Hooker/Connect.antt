-- ===== src/Hooker/Connect.antt =====
-- src/EHooker.cpp: connect.
use cxx_fiber.Prelude.Int.{ℤ, pos, negsuc}
use cxx_fiber.Prelude.{
  ℕ, ◌≡◌, ◌≢◌, true, false, Bool-cases, inl, inr, arith, refl, ap, ◌∙◌, sym, ◌&&◌, ◌==◌, Option,
  none, some, if◌then◌else◌,
}
use cxx_fiber.IoWaiter.{EventLoop, writable, set_file_event, del_file_event}
use cxx_fiber.FileContext.{Os, FileContext}
use cxx_fiber.Hooker.Chains.{>>=-step}
use cxx_fiber.Hooker.{
  Host, Original, M, ◌>>=◌, return, return_with, original, skips, with_io, is_minus_one, pause,
  Outcome, returned, failed, get_file_context, e_in_progress,
}

-- The answer of `getsockopt`, none being its failure.
report : {P S : Type 0} → Option ℕ → M P S ℤ
report none = return (negsuc 0)
report (some err) = if err == 0 then return (pos 0) else return_with err (negsuc 0)

module _ {P S : Type 0} (L : EventLoop P) (others : Host P S → Host P S) (os : Os S)
    (align_up : ℕ → ℕ → ℕ) (so_error : ℕ → Original S (Option ℕ)) where
  -- The pause for the file to become writable. It has no timer.
  pub wait_writable : ℕ → Host P S → Host P S
  unfolding pause set_file_event del_file_event
  wait_writable fd h =
      let h1 = pause L others (with_io (set_file_event L fd writable h.io) h) in
      with_io (del_file_event L (pos fd) writable h1.io) h1

  -- `getsockopt` of SO_ERROR and what it makes of the call.
  recheck : ℕ → M P S ℤ
  unfolding report
  recheck fd = original (so_error fd) >>= report

  -- What follows the first attempt.
  pub complete : ℕ → ℤ → M P S ℤ
  unfolding wait_writable recheck
  complete fd n h =
      if is_minus_one n && h.errno == e_in_progress
      then recheck fd (wait_writable fd h)
      else return n h

  unfoldable pub connect : Original S ℤ → ℕ → M P S ℤ
  unfolding complete
  connect connect_f fd h =
      if skips h
      then original connect_f h
      else (get_file_context os align_up fd >>= λ c.
            if c.user_non_blocked then original connect_f else original connect_f >>= complete fd)
          h

-- SO_ERROR is never EINPROGRESS, and where `getsockopt` fails it is not with EINPROGRESS. A call that
-- succeeds may leave any errno.
abbrev pub Settled : {S : Type 0} → (ℕ → Original S (Option ℕ)) → Type 0
Settled {S} so_error =
    (fd : ℕ) (s : S) (e : ℕ)
    → ((so_error fd s e).value ≢ some e_in_progress)
      × ((so_error fd s e).value ≡ none → (so_error fd s e).errno ≢ e_in_progress)

-- An outcome that is not -1 with EINPROGRESS.
abbrev pub NotInProgress : {P S : Type 0} → Host P S × Outcome ℤ → Type 0
NotInProgress (h, returned r) = is_minus_one r ≡ true → h.errno ≢ e_in_progress
NotInProgress (h, failed e) = Unit

report_lem :
    {P S : Type 0} (o : Option ℕ) (h : Host P S)
    → o ≢ some e_in_progress
    → (o ≡ none → h.errno ≢ e_in_progress)
    → NotInProgress (report o h)
unfolding report
report_lem none h ne same = λ _. same refl
report_lem (some err) h ne same = elim (Bool-cases (err == 0)) [
  | inl done ↦ rw done (λ f. cc)
  | inr more ↦ rw more (λ _ f. ne (ap some f))
]

module _ {P S : Type 0} (L : EventLoop P) (others : Host P S → Host P S) (os : Os S)
    (align_up : ℕ → ℕ → ℕ) (so_error : ℕ → Original S (Option ℕ)) (settled : Settled so_error) where
  recheck_lem : (fd : ℕ) (h : Host P S) → NotInProgress (recheck L others os align_up so_error fd h)
  unfolding recheck
  recheck_lem fd h =
      let a = so_error fd h.kernel h.errno in
      report_lem a.value (record h { kernel = a.kernel; errno = a.errno })
        (settled fd h.kernel h.errno).0 (settled fd h.kernel h.errno).1

  complete_lem :
      (fd : ℕ) (n : ℤ) (h : Host P S)
      → NotInProgress (complete L others os align_up so_error fd n h)
  unfolding complete
  complete_lem fd n h = elim (Bool-cases (is_minus_one n)) [
    | inl m ↦ elim (Bool-cases (h.errno == e_in_progress)) [
      | inl e ↦ rw (m, e) (recheck_lem fd (wait_writable L others os align_up so_error fd h))
      | inr e ↦ rw (m, e) (λ _. ground arith)
    ]
    | inr m ↦ rw m (λ e. cc)
  ]

  -- On a file that the program has left in the blocking mode, `connect` in a fiber never comes back with
  -- -1 and EINPROGRESS, whatever the original call answers, if SO_ERROR is never EINPROGRESS and
  -- `getsockopt`, where it fails, does not fail with EINPROGRESS.
  pub connect-settles :
      (connect_f : Original S ℤ) (fd : ℕ) (c : FileContext) (h h1 h' : Host P S) (r : ℤ)
      → skips h ≡ false
      → get_file_context os align_up fd h ≡ (h1, returned c)
      → c.user_non_blocked ≡ false
      → connect L others os align_up so_error connect_f fd h ≡ (h', returned r)
      → is_minus_one r ≡ true
      → h'.errno ≢ e_in_progress
  unfolding connect
  connect-settles connect_f fd c h h1 h' r run got blocks e =
      let a = connect_f h1.kernel h1.errno in
      let g = record h1 { kernel = a.kernel; errno = a.errno } in
      let rest = λ (d : FileContext).
        if d.user_non_blocked
        then original connect_f
        else original connect_f >>= complete L others os align_up so_error fd in
      let same : connect L others os align_up so_error connect_f fd h
          ≡ complete L others os align_up so_error fd a.value g =
        rw (run, >>=-step (get_file_context os align_up fd) rest h h1 c got, blocks) refl in
      rw (sym same ∙ e) at (complete_lem fd a.value g)
