-- ===== src/Hooker/Files/Examples.antt =====
-- Calls of `fcntl`, `ioctl` and `setsockopt` of src/EHooker.cpp on a concrete file.
use cxx_fiber.Prelude.Int.{ℤ, pos}
use cxx_fiber.Prelude.{ℕ}
use cxx_fiber.FileContext.{Timeval}
use cxx_fiber.Hooker.{Original}
use cxx_fiber.Hooker.Files.{Command, SocketOption}

abbrev ints : Command → Original (ℕ → ℕ) ℕ
ints c s e = record { kernel = s; errno = e; value = 0 }

abbrev options : SocketOption → Original (ℕ → ℕ) ℤ
options o s e = record { kernel = s; errno = e; value = pos 0 }

abbrev short : Timeval
short = record { tv_sec = 0; tv_usec = 2500 }
