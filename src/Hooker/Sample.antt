-- ===== src/Hooker/Sample.antt =====
-- A host for the calls of src/EHooker.cpp on concrete files. The kernel's state is the flags of each
-- file.
use cxx_fiber.Prelude.Int.{ℤ, pos}
use cxx_fiber.Prelude.{ℕ, ◌+◌, ◌*◌, ◌/◌, ◌%◌, ◌^◌, true, false, none, some, List, [], update}
use cxx_fiber.Fiber
use cxx_fiber.FileContext.{Os, FileContext}
use cxx_fiber.IoWaiter.{IoWaiter}
use cxx_fiber.IoWaiter.ArrayLoop.{Arrays}
use cxx_fiber.Hooker.{Original, Host}
use cxx_fiber.Hooker.Poll.{Pollfd}

abbrev pub kernel : Os (ℕ → ℕ)
kernel = record {
  get_flags = λ s fd. s fd % 2 ^ 31;
  set_flags = λ s fd v. update s fd v;
  is_stream_file = λ s fd. true;
  is_socket_file = λ s fd. false;
  get_timeout = λ s fd d. none;
}

-- The program has left the file in the blocking mode.
abbrev pub context : FileContext
context = record {
  fd = 5;
  sys_non_blocked = true;
  user_non_blocked = false;
  recv_timeout = pos 0;
  send_timeout = pos 0;
}

abbrev pub io : IoWaiter Arrays
io = record {
  poll = record { masks = λ fd. 0; clients = λ fd. 0; timers = 0 };
  waiters = 0;
  boxes = λ a. none;
  next = 0;
  corrupted = false;
  fiber = Fiber.create [];
  self = 7;
}

-- Every file is open for reading and writing, and has the context.
abbrev pub host : Host Arrays (ℕ → ℕ)
host = record {
  io = io;
  kernel = λ fd. 2050;
  errno = 0;
  files = record {
    rows = 2;
    slot = λ i j. some 0;
    heap = λ a. context;
    next = 1;
    locked = λ l. false;
  };
  scheduled = true;
  signaled = false;
  interrupted = false;
}

abbrev pub round_up : ℕ → ℕ → ℕ
round_up n k = (n + 32767) / 32768 * 32768

-- Every file is ready at once.
abbrev pub ready : List Pollfd → ℤ → Original (ℕ → ℕ) (ℤ × List Pollfd)
ready fds t s e = record { kernel = s; errno = e; value = (pos 1, fds) }

-- Nothing happens to the host while a fiber pauses.
abbrev pub others : Host Arrays (ℕ → ℕ) → Host Arrays (ℕ → ℕ)
others h = h
