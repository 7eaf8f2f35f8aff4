-- ===== src/FileContext/Examples.antt =====
-- Contexts of concrete files: the kernel's state is the flags of each file.
use cxx_fiber.Prelude.{ℕ, ◌+◌, ◌*◌, ◌/◌, ◌≡◌, refl, true, false, some, none, arith, update, ◌==◌}
use cxx_fiber.Prelude.Int.{pos}
use cxx_fiber.FileContext.{Os, FileContext, minus_one, create}
use cxx_fiber.FileContext.Modes.{SetsFlags}
use cxx_fiber.FileContext.Table.{Table, found, get}
use cxx_fiber.FileContext.Table.Slots.{RoundsUp, lookup, get-keeps}

-- The files below 100 are open.
abbrev kernel : Os (ℕ → ℕ)
kernel = record {
  get_flags = λ s fd. s fd;
  set_flags = λ s fd v. update s fd v;
  is_stream_file = λ s fd. true;
  is_socket_file = λ s fd. fd == 5;
  get_timeout = λ s fd d. some (record { tv_sec = 2; tv_usec = 500000 });
}

kernel-SetsFlags : SetsFlags kernel
kernel-SetsFlags s fd v small h = ground arith

abbrev flags : ℕ → ℕ
flags fd = elim (fd == 77) [ true ↦ minus_one | false ↦ 2 ]

abbrev socket : FileContext
socket = record {
  fd = 5;
  sys_non_blocked = true;
  user_non_blocked = false;
  recv_timeout = pos 2500;
  send_timeout = pos 2500;
}

abbrev round_up : ℕ → ℕ → ℕ
round_up n k = (n + 32767) / 32768 * 32768

round_up-RoundsUp : RoundsUp round_up
round_up-RoundsUp n = ground arith

abbrev blank : Table
blank = record { rows = 0; slot = λ i j. none; heap = λ a. socket; next = 0; locked = λ l. false }

abbrev table : Table
table = record blank { rows = 2 }

-- The table after the context of the descriptor 5 was made.
abbrev filled : Table
filled = (get kernel round_up 5 flags table).0.1

get-keeps_example :
    (get kernel round_up 5 (update flags 5 2050) filled ≡ ((update flags 5 2050, filled), found 0))
    × (lookup round_up 40000 filled ≡ lookup round_up 40000 table)
unfolding get create
get-keeps_example =
    get-keeps kernel round_up round_up-RoundsUp 5 0 40000 flags (update flags 5 2050) table filled
      refl (omega arith)
