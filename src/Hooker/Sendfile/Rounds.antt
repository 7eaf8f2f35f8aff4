-- ===== src/Hooker/Sendfile/Rounds.antt =====
-- `sendfile` of src/EHooker.cpp: its rounds on a socket that is always ready to be written.
use cxx_fiber.Prelude.Int.{ℤ, pos}
use cxx_fiber.Prelude.{
  ℕ, zero, suc, ◌+◌, ◌-◌, ◌^◌, ◌<◌, ◌≤◌, ◌≡◌, ◌≢◌, ◌↔◌, ◌∙◌, refl, sym, ap, arith, true, false,
  Option, some, List, [], ◌∷◌, if◌then◌else◌, ltb, ◌==◌, Bool-cases, inl, inr,
}
use cxx_fiber.IoWaiter.{EventLoop}
use cxx_fiber.FileContext.{Os, FileContext}
use cxx_fiber.Hooker.{
  Host, Original, M, ◌>>=◌, Outcome, returned, failed, unfinished, original, skips,
  get_file_context,
}
use cxx_fiber.Hooker.Chains.{>>=-step, >>=-after}
use cxx_fiber.Hooker.Io.{pollfd, or_forever}
use cxx_fiber.Hooker.Poll.{Pollfd, poll, poll_out}
use cxx_fiber.Hooker.Poll.Errors.{poll_ready}
use cxx_fiber.Hooker.Sendfile.{sendfile, round, step, proceed, finish, start, less}

module _ {P S : Type 0} (L : EventLoop P) (others : Host P S → Host P S)
    (poll_f : List Pollfd → ℤ → Original S (ℤ × List Pollfd))
    (ready : (fds : List Pollfd) (t : ℤ) (s : S) (e : ℕ) → (poll_f fds t s e).value ≡ (pos 1, fds))
    (sendfile_f : Option ℕ → ℕ → Original S (ℤ × Option ℕ)) where
  -- A round in which the call sends `k` bytes.
  round-sends :
      (n fd : ℕ) (t : ℤ) (o p : Option ℕ) (count k : ℕ) (h : Host P S)
      → ((s : S) (e : ℕ) → (sendfile_f o count s e).value ≡ (pos k, p))
      → k ≤ count
      → count < 2 ^ 64
      → (g : Host P S) × (round L others poll_f sendfile_f (suc n) fd t o count h ≡ (
          if ltb 0 (count - k)
          then round L others poll_f sendfile_f n fd t p (count - k) g
          else (g, returned (pos k, p))))
  unfolding round step proceed
  round-sends n fd t o p count k h sent le lt =
      let (g, e) = poll_ready L others poll_f ready (pollfd fd poll_out ∷ []) t h refl in
      let a = sendfile_f o count g.kernel g.errno in
      let left : less count (pos k) ≡ count - k = omega arith in
      let rest =
        λ (q : Option ℕ) (c : ℕ) (k : Host P S). round L others poll_f sendfile_f n fd t q c k in
      (
        record g { kernel = a.kernel; errno = a.errno },
        >>=-step (poll L others poll_f (pollfd fd poll_out ∷ []) t)
              (λ b. step L others poll_f sendfile_f rest o count b.0) h g _ e
            ∙ rw (sent g.kernel g.errno, left)
                (elim (Bool-cases (ltb 0 (count - k))) [
                  | inl more ↦ rw more refl
                  | inr done ↦ rw done refl
                ]),
      )

  -- At the end of the input.
  round-spins :
      (n fd : ℕ) (t : ℤ) (o count : ℕ) (h : Host P S)
      → ((s : S) (e : ℕ) → (sendfile_f (some o) count s e).value ≡ (pos 0, some o))
      → 0 < count
      → count < 2 ^ 64
      → (round L others poll_f sendfile_f n fd t (some o) count h).1 ≡ failed unfinished
  unfolding round
  round-spins zero fd t o count h at_end has lt = refl
  round-spins (suc n) fd t o count h at_end has lt =
      let (g, e) = round-sends n fd t (some o) (some o) count 0 h at_end (omega arith) lt in
      let more : ltb 0 (count - 0) ≡ true = ground arith in
      let same : count - 0 ≡ count = omega arith in
      let goes_on : round L others poll_f sendfile_f (suc n) fd t (some o) count h
          ≡ round L others poll_f sendfile_f n fd t (some o) count g =
        e ∙ rw (more, same) refl in
      rw goes_on (round-spins n fd t o count g at_end has lt)

  -- Where every call sends something, the rounds send all.
  round-sends_all :
      (give : ℕ → ℕ → ℕ)
      → ((o c : ℕ) (s : S) (e : ℕ)
          → (sendfile_f (some o) c s e).value ≡ (pos (give o c), some (o + give o c)))
      → ((o c : ℕ) → 0 < c → 0 < give o c)
      → ((o c : ℕ) → give o c ≤ c)
      → (n fd : ℕ) (t : ℤ) (o count : ℕ) (h : Host P S) → 0 < count
      → count < 2 ^ 64
      → count ≤ n
      → (g : Host P S) × (r : ℕ) × (round L others poll_f sendfile_f n fd t (some o) count h
          ≡ (g, returned (pos r, some (o + count))))
        × (0 < r)
        × (r ≤ count)
        × ((r ≡ count) ↔ (give o count ≡ count))
  round-sends_all give gives some_bytes fits zero fd t o count h has lt fuel = absurd (omega arith)
  round-sends_all give gives some_bytes fits (suc n) fd t o count h has lt fuel =
      let k = give o count in
      let k_some = some_bytes o count has in
      let k_fits = fits o count in
      let (g, e) = round-sends n fd t (some o) (some (o + k)) count k h (gives o count) k_fits lt in
      elim (Bool-cases (ltb 0 (count - k))) [
        | inl more ↦
            let left_some : 0 < count - k = ground arith in
            let (g1, r, e1, r_some, r_fits, whole) =
              round-sends_all give gives some_bytes fits n fd t (o + k) (count - k) g left_some
                (omega arith) (omega arith) in
            let sum : o + k + (count - k) ≡ o + count = omega arith in
            (
              g1,
              r,
              e ∙ rw (more, e1, sum) refl,
              r_some,
              omega arith,
              ((λ q. omega arith), (λ q. omega arith)),
            )
        | inr done ↦
            let all : k ≡ count = ground arith in
            (g, k, e ∙ rw (done, all) refl, k_some, k_fits, ((λ q. q), (λ q. q)))
      ]

-- A call of `sendfile` on a socket that the program has left in the blocking mode.
pub record Blocks {P S : Type 0} (os : Os S) (align_up : ℕ → ℕ → ℕ) (fd : ℕ) (c : FileContext)
    (h h1 : Host P S) : Type 0 where
  pub in_fiber : skips h ≡ false
  pub stream : os.is_stream_file h.kernel fd ≡ true
  pub got : get_file_context os align_up fd h ≡ (h1, returned c)
  pub blocking : c.user_non_blocked ≡ false

finish_clash : {A : Type 0} {a : A} → returned a ≢ failed unfinished
finish_clash e = cc

module _ {P S : Type 0} (L : EventLoop P) (others : Host P S → Host P S)
    (poll_f : List Pollfd → ℤ → Original S (ℤ × List Pollfd))
    (sendfile_f : Option ℕ → ℕ → Original S (ℤ × Option ℕ)) (os : Os S) (align_up : ℕ → ℕ → ℕ)
    (out_fd count : ℕ) (c : FileContext) (h h1 : Host P S) where
  sendfile-round :
      (n : ℕ) (offset : Option ℕ)
      → Blocks os align_up out_fd c h h1
      → sendfile L others poll_f sendfile_f os align_up n out_fd offset count h
        ≡ (round L others poll_f sendfile_f n out_fd
                (or_forever c.send_timeout)
                (start offset)
                count
              >>= finish L others poll_f sendfile_f offset)
            h1
  unfolding sendfile
  sendfile-round n offset b =
      let rest = λ (d : FileContext).
        if d.user_non_blocked
        then original (sendfile_f offset count)
        else round L others poll_f sendfile_f n out_fd (or_forever d.send_timeout) (start offset)
            count
          >>= finish L others poll_f sendfile_f offset in
      rw
        (
          b.in_fiber,
          b.stream,
          >>=-step (get_file_context os align_up out_fd) rest h h1 c b.got,
          b.blocking,
        )
        refl

  finish_failed :
      (offset : Option ℕ) (m : M P S (ℤ × Option ℕ)) (g : Host P S)
      → (m g).1 ≡ failed unfinished
      → ((m >>= finish L others poll_f sendfile_f offset) g).1 ≡ failed unfinished
  finish_failed offset m g e =
      >>=-after (λ x. x.1 ≡ failed unfinished) m (finish L others poll_f sendfile_f offset) g
        (λ a k q.
          absurd (finish_clash (sym (ap (λ (x : Host P S × Outcome (ℤ × Option ℕ)). x.1) q) ∙ e)))
        (λ f k q. sym (ap (λ (x : Host P S × Outcome (ℤ × Option ℕ)). x.1) q) ∙ e)

  -- On a socket in the blocking mode that is always ready to be written, once the input is at its end
  -- a call that still has bytes to send goes round without end: however many rounds are given, it
  -- returns nothing.
  sendfile-spins :
      (n o : ℕ)
      → Blocks os align_up out_fd c h h1
      → ((fds : List Pollfd) (t : ℤ) (s : S) (e : ℕ) → (poll_f fds t s e).value ≡ (pos 1, fds))
      → ((s : S) (e : ℕ) → (sendfile_f (some o) count s e).value ≡ (pos 0, some o))
      → 0 < count
      → count < 2 ^ 64
      → (sendfile L others poll_f sendfile_f os align_up n out_fd (some o) count h).1
        ≡ failed unfinished
  sendfile-spins n o b ready at_end has lt = rw (sendfile-round n (some o) b) (
      finish_failed (some o)
        (round L others poll_f sendfile_f n out_fd (or_forever c.send_timeout) (some o) count) h1
        (round-spins L others poll_f ready sendfile_f n out_fd (or_forever c.send_timeout) o count
          h1 at_end has lt))

  -- On a socket in the blocking mode that is always ready to be written, if every call of the kernel
  -- sends something, no more than it is asked to, then a call with as many rounds as bytes ends. It
  -- has sent all bytes: the offset is past the last. Its result is a positive number and at most the
  -- number of bytes, but it is the number of bytes only if the first call of the kernel sent them all.
  pub sendfile-sends_all :
      (give : ℕ → ℕ → ℕ) (n o : ℕ)
      → Blocks os align_up out_fd c h h1
      → ((fds : List Pollfd) (t : ℤ) (s : S) (e : ℕ) → (poll_f fds t s e).value ≡ (pos 1, fds))
      → ((p k : ℕ) (s : S) (e : ℕ)
          → (sendfile_f (some p) k s e).value ≡ (pos (give p k), some (p + give p k)))
      → ((p k : ℕ) → 0 < k → 0 < give p k)
      → ((p k : ℕ) → give p k ≤ k)
      → 0 < count
      → count < 2 ^ 64
      → count ≤ n
      → (g : Host P S) × (r : ℕ) × (sendfile L others poll_f sendfile_f os align_up n out_fd
            (some o)
            count
            h
          ≡ (g, returned (pos r, some (o + count))))
        × (0 < r)
        × (r ≤ count)
        × ((r ≡ count) ↔ (give o count ≡ count))
  unfolding finish
  sendfile-sends_all give n o b ready gives some_bytes fits has lt fuel =
      let t = or_forever c.send_timeout in
      let (g, r, e, r_some, r_fits, whole) =
        round-sends_all L others poll_f ready sendfile_f give gives some_bytes fits n out_fd t o
          count h1 has lt fuel in
      let more : (r == 0) ≡ false = ground arith in
      (
        g,
        r,
        sendfile-round n (some o) b
            ∙ >>=-step (round L others poll_f sendfile_f n out_fd t (some o) count)
                (finish L others poll_f sendfile_f (some o)) h1 g _ e
            ∙ rw more refl,
        r_some,
        r_fits,
        whole,
      )
