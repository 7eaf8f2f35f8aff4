-- ===== src/Hooker/Select/Examples.antt =====
-- Calls of `select` of src/EHooker.cpp on concrete files.
use cxx_fiber.Prelude.Int.{ℤ, pos}
use cxx_fiber.Prelude.{ℕ, ◌≡◌, refl, ◌==◌, Option, none, some}
use cxx_fiber.Fiber
use cxx_fiber.FileContext.{Timeval}
use cxx_fiber.IoWaiter.ArrayLoop.{array_loop}
use cxx_fiber.Hooker.{Original, returned}
use cxx_fiber.Hooker.Sample.{host, others}
use cxx_fiber.Hooker.Select.{FdSets, cleared, rest, select}
use cxx_fiber.Hooker.Select.Registered.{looked, select-sleeps}

-- The descriptor 3, for reading.
abbrev three : FdSets
three = record { read_fds = some (λ fd. fd == 3); write_fds = none; except_fds = none }

-- Nothing is ready.
abbrev nothing : ℤ → FdSets → Option Timeval → Original (ℕ → ℕ) (ℤ × FdSets)
nothing nfds s t k e = record { kernel = k; errno = e; value = (pos 0, cleared s) }

abbrev two_seconds : Timeval
two_seconds = record { tv_sec = 2; tv_usec = 0 }

select-sleeps_example :
    let v =
      (rest array_loop others nothing 2000
        (looked array_loop others nothing (pos 4) three host)).io in
    let (g, o) = select array_loop others nothing (pos 4) three (some two_seconds) host in
    (o ≡ returned (pos 0, cleared three))
    × (g.io ≡ record v { fiber = (Fiber.is_wait_timeout v.fiber).0 })
select-sleeps_example =
    select-sleeps array_loop others nothing (pos 4) three (some two_seconds) host refl refl refl
      refl refl
