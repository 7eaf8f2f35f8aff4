-- ===== src/Scheduler/Setup.antt =====
-- src/EFiberScheduler.cpp: the size of the event sets and of the table of files, from the limit of
-- the process on descriptors.
use cxx_fiber.Prelude.Int.{ℤ, pos, negsuc}
use cxx_fiber.Prelude.{
  ℕ, ◌-◌, ◌*◌, ◌%◌, ◌^◌, ◌≤◌, ◌<◌, ◌≡◌, Option, none, some, ltb, leb, arith, if◌then◌else◌,
}
use native.Mathlib.Nat.{mod-eq_of_lt}

-- FD_DEFAULT_CHUNKS * FD_CHUNK_CAPACITY.
abbrev pub default_fds : ℕ
default_fds = 32 * 32768

-- A number of 64 bits in an int.
unfoldable pub as_int : ℕ → ℤ
as_int n = if ltb (n % 2 ^ 32) (2 ^ 31) then pos (n % 2 ^ 32) else negsuc (2 ^ 32 - 1 - n % 2 ^ 32)

-- `fdLimit`: what getrlimit fills in, 64 bits, is none where it fails; a limit with the highest bit is
-- negative in a long.
unfoldable pub fd_limit : ℕ → Option ℕ → ℕ
fd_limit default_limit none = default_limit
fd_limit default_limit (some current) = if leb (2 ^ 63) current then default_limit else current

-- `maxEventSetSize` by the two constructors.
unfoldable pub max_event_set_size : Option ℕ → ℤ
unfolding as_int fd_limit
max_event_set_size limit = as_int (fd_limit default_fds limit)

abbrev larger : ℕ → ℕ → ℕ
larger a b = if ltb b a then a else b

unfoldable pub max_event_set_size_for : ℕ → Option ℕ → ℤ
unfolding as_int fd_limit
max_event_set_size_for max_fd limit = as_int (larger max_fd (fd_limit default_fds limit))

as_int-small : (n : ℕ) → n < 2 ^ 31 → as_int n ≡ pos n
unfolding as_int
as_int-small n lt = ground (arith, mod-eq_of_lt {n = n} {m = 2 ^ 32} (omega arith))

-- Where the limit on descriptors fits an int, or there is none, and so does the size that is asked for,
-- the event sets have a place for every descriptor below the limit and below the size.
max_event_set_size-holds :
    (max_fd : ℕ) (limit : Option ℕ)
    → max_fd < 2 ^ 31
    → fd_limit default_fds limit < 2 ^ 31
    → (s : ℕ) × (max_event_set_size_for max_fd limit ≡ pos s)
      × (max_fd ≤ s)
      × (fd_limit default_fds limit ≤ s)
      × (max_event_set_size limit ≡ pos (fd_limit default_fds limit))
unfolding max_event_set_size max_event_set_size_for
max_event_set_size-holds max_fd limit a b =
    let n = fd_limit default_fds limit in
    (
      larger max_fd n,
      as_int-small (larger max_fd n) (ground arith),
      ground arith,
      ground arith,
      as_int-small n b,
    )
