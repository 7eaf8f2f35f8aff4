-- ===== src/Hooker/Poll/Examples.antt =====
-- Calls of `poll` of src/EHooker.cpp on concrete files.
use cxx_fiber.Prelude.Int.{ℤ, pos, negsuc}
use cxx_fiber.Prelude.{ℕ, refl, true, false, none, List, [], ◌∷◌}
use cxx_fiber.FileContext.Table.{Table}
use cxx_fiber.IoWaiter.ArrayLoop.{Arrays, array_loop}
use cxx_fiber.Hooker.{Original, Host}
use cxx_fiber.Hooker.Poll.{Pollfd}
use cxx_fiber.Hooker.Poll.Waiting.{Spares}
use cxx_fiber.Hooker.Poll.Readiness.{HasToWait}
use cxx_fiber.Hooker.Sample.{io, context}

abbrev files : Table
files = record { rows = 2; slot = λ i j. none; heap = λ a. context; next = 0; locked = λ l. false }

abbrev host : Host Arrays ℕ
host = record {
  io = io;
  kernel = 0;
  errno = 0;
  files = files;
  scheduled = true;
  signaled = false;
  interrupted = false;
}

-- Nothing is ready at once, and the fiber is resumed by an event.
abbrev nothing : List Pollfd → ℤ → Original ℕ (ℤ × List Pollfd)
nothing fds t s e = record { kernel = s; errno = e; value = (pos 0, fds) }

abbrev others : Host Arrays ℕ → Host Arrays ℕ
others h = h

abbrev both : List Pollfd
both =
    record { fd = pos 3; events = 1; revents = 0 }
    ∷ record { fd = pos 4; events = 4; revents = 0 }
    ∷ []

both-Spares : Spares array_loop others both
both-Spares = record {
  registrations = λ h s k e. e;
  size = λ h. refl;
  waiters = λ h. refl;
  corrupted = λ h. refl;
}

both-HasToWait : HasToWait nothing both (negsuc 0) host
both-HasToWait = record {
  in_fiber = refl;
  not_zero = refl;
  some_valid = refl;
  nothing_ready = refl;
}
