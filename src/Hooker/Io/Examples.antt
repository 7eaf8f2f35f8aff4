-- ===== src/Hooker/Io/Examples.antt =====
-- Calls of `comm_io_on_fiber` of src/EHooker.cpp on concrete files. The kernel's state is the flags of
-- each file.
use cxx_fiber.Prelude.Int.{ℤ, pos, negsuc}
use cxx_fiber.Prelude.{ℕ, ◌≡◌, ◌≢◌, refl, true, false, none, arith, update, List}
use cxx_fiber.FileContext.{Os, FileContext, has_nonblock}
use cxx_fiber.FileContext
use cxx_fiber.Fiber
use cxx_fiber.FileContext.Modes.{SetsFlags}
use cxx_fiber.IoWaiter.ArrayLoop.{Arrays, array_loop}
use cxx_fiber.Hooker.{Original, Host, get_file_context, get_pointer, e_again}
use cxx_fiber.Hooker.OldIo
use cxx_fiber.Hooker.Poll.{Pollfd, poll}
use cxx_fiber.Hooker.Io.{writes, accepts, comm_io}
use cxx_fiber.Hooker.Io.Errors.{comm_io-never_again}
use cxx_fiber.Hooker.Sample
use cxx_fiber.Hooker.Sample.{kernel, context, io, round_up, ready, others}

kernel-SetsFlags : SetsFlags kernel
kernel-SetsFlags s fd v small h = ground arith

-- No file has a context yet.
abbrev host : Host Arrays (ℕ → ℕ)
host = record Sample.host {
  files = record {
    rows = 2;
    slot = λ i j. none;
    heap = λ a. context;
    next = 0;
    locked = λ l. false;
  };
}

abbrev blocked : Host Arrays (ℕ → ℕ)
blocked = record host { kernel = λ fd. 2 }

-- The peer is gone: EPIPE.
abbrev broken : Original (ℕ → ℕ) ℤ
broken s e = record { kernel = s; errno = 32; value = negsuc 0 }

comm_io-never_again_example :
    (comm_io array_loop others ready kernel round_up 1 broken writes 5 blocked).0.errno ≢ e_again
unfolding comm_io get_file_context poll FileContext.create
comm_io-never_again_example =
    comm_io-never_again array_loop others ready (λ fds t s e. cc) kernel round_up 1 broken writes 5
      context blocked (get_file_context kernel round_up 5 blocked).0
      (comm_io array_loop others ready kernel round_up 1 broken writes 5 blocked).0 (negsuc 0) refl
      refl refl refl refl refl

-- A connection comes in as the descriptor 6, non-blocking like the listening file.
abbrev connection : Original (ℕ → ℕ) ℤ
connection s e = record { kernel = update s 6 2050; errno = e; value = pos 6 }

-- Nothing is ready at once, and the pause ends with an event.
abbrev nothing : List Pollfd → ℤ → Original (ℕ → ℕ) (ℤ × List Pollfd)
nothing fds t s e = record { kernel = s; errno = e; value = (pos 0, fds) }

-- Another fiber sets the listening file to the non-blocking mode in the pause.
abbrev meddler : Host Arrays (ℕ → ℕ) → Host Arrays (ℕ → ℕ)
meddler h = record h {
  files = record (h.files) { heap = λ a. record context { user_non_blocked = true } };
}

-- Compiled as C++11, `accept` sets the connection to the blocking mode all the same; before, it leaves
-- it as it is.
accepted :
    (comm_io array_loop meddler nothing kernel round_up 1 connection accepts 5 Sample.host).0.kernel
      6
    ≡ 2
unfolding comm_io get_file_context poll Fiber.create
accepted = refl

accepted_old :
    (OldIo.comm_io array_loop meddler nothing kernel round_up 1 connection accepts 5
        Sample.host).0.kernel
      6
    ≡ 2050
unfolding OldIo.comm_io get_pointer poll Fiber.create
accepted_old = refl
