-- ===== src/FileContext/Modes.antt =====
-- src/EFileContext.cpp: the mode that a file has before its context is made, while it lives, and
-- when it is gone.
use cxx_fiber.Prelude.{
  ℕ, ◌≡◌, ◌<◌, ◌^◌, ◌⊎◌, inl, refl, Bool, true, false, not, some, arith, if◌then◌else◌,
}
use cxx_fiber.FileContext.{
  Os, FileContext, has_nonblock, with_nonblock, without_nonblock, create, destroy, read_timeouts,
  untimed, set_user_non_block,
}

-- F_SETFL with the flags of an open file, which F_GETFL gives as an int that is not negative, less
-- or more O_NONBLOCK, sets them.
abbrev pub SetsFlags : {S : Type 0} → Os S → Type 0
SetsFlags {S} os =
    (s : S) (fd v : ℕ)
    → os.get_flags s fd < 2 ^ 31
    → (v ≡ with_nonblock (os.get_flags s fd)) ⊎ (v ≡ without_nonblock (os.get_flags s fd))
    → os.get_flags (os.set_flags s fd v) fd ≡ v

pub with-has : (flags : ℕ) → has_nonblock (with_nonblock flags) ≡ true
with-has flags = ground arith

without-with : (flags : ℕ) → without_nonblock (with_nonblock flags) ≡ without_nonblock flags
without-with flags = ground arith

module _ {S : Type 0} (os : Os S) (ok : SetsFlags os) where
  read_timeouts-keeps :
      (s : S) (c d : FileContext)
      → read_timeouts os s c ≡ some d
      → (d.fd ≡ c.fd) × (d.user_non_blocked ≡ c.user_non_blocked)
  unfolding read_timeouts
  read_timeouts-keeps s c d e = ground arith

  -- While the context of an open file lives the file is non-blocking, and the context knows the mode
  -- that it had.
  pub create-flags :
      (s s1 : S) (fd : ℕ) (c : FileContext)
      → os.get_flags s fd < 2 ^ 31
      → create os s fd ≡ (s1, some c)
      → (os.get_flags s1 fd ≡ with_nonblock (os.get_flags s fd))
        × (c.fd ≡ fd)
        × (c.user_non_blocked ≡ has_nonblock (os.get_flags s fd))
  unfolding create
  create-flags s s1 fd c small e = ground (
    arith,
    ok s fd (with_nonblock (os.get_flags s fd)) small (inl refl),
    read_timeouts-keeps s1 (untimed fd (not (has_nonblock (os.get_flags s fd)))) c,
  )

  -- A file is opened, its context is made, the program asks for the blocking or the non-blocking
  -- mode, and the context goes outside a fiber. The file then has its old flags in the mode asked
  -- for, though it was non-blocking all the while.
  destroy-applies :
      (s s1 : S) (fd : ℕ) (c : FileContext) (b : Bool)
      → os.get_flags s fd < 2 ^ 31
      → create os s fd ≡ (s1, some c)
      → (has_nonblock (os.get_flags s1 fd) ≡ true)
        × (os.get_flags (destroy os false (set_user_non_block b c) s1) fd ≡ (
            if b then with_nonblock (os.get_flags s fd) else without_nonblock (os.get_flags s fd)))
  unfolding destroy set_user_non_block
  destroy-applies s s1 fd c b small e =
      let (now, same, mode) = create-flags s s1 fd c small e in
      ground (
        arith,
        with-has (os.get_flags s fd),
        without-with (os.get_flags s fd),
        ok s1 fd (without_nonblock (os.get_flags s1 fd)),
      )
