-- ===== src/FileContext.antt =====
-- src/EFileContext.cpp: what the library knows of an open file, and the flags that it sets in the
-- kernel for it. A descriptor is a natural number.
mod Examples
mod Kinds
pub mod Modes
pub mod Table
use cxx_fiber.Prelude.Int.{ℤ, pos, negsuc}
use cxx_fiber.Prelude.{
  ℕ, ◌+◌, ◌-◌, ◌*◌, ◌/◌, ◌%◌, ◌^◌, Bool, true, false, not, ◌&&◌, Option, none, some, ltb, ◌==◌,
  if◌then◌else◌,
}

-- `struct timeval`.
pub record Timeval : Type 0 where
  pub tv_sec : ℕ
  pub tv_usec : ℕ

-- The options SO_RCVTIMEO and SO_SNDTIMEO.
pub data Direction : Type 0 where
  receiving sending : Direction

-- The kernel calls, with S for the kernel's state.
pub record Os (S : Type 0) : Type 0 where
  pub get_flags : S → ℕ → ℕ  -- F_GETFL: the int that it returns, as an unsigned one
  pub set_flags : S → ℕ → ℕ → S  -- F_SETFL
  pub is_stream_file : S → ℕ → Bool  -- fstat64 says a pipe or a socket
  pub is_socket_file : S → ℕ → Bool  -- fstat64 says a socket
  pub get_timeout : S → ℕ → Direction → Option Timeval  -- getsockopt; none is -1

abbrev pub minus_one : ℕ
minus_one = 2 ^ 32 - 1

-- O_NONBLOCK of Linux, the bit 2048.
abbrev pub has_nonblock : ℕ → Bool
has_nonblock flags = (flags / 2048) % 2 == 1

-- `flags | O_NONBLOCK`.
abbrev pub with_nonblock : ℕ → ℕ
with_nonblock flags = if has_nonblock flags then flags else flags + 2048

-- `flags & ~O_NONBLOCK`.
abbrev pub without_nonblock : ℕ → ℕ
without_nonblock flags = if has_nonblock flags then flags - 2048 else flags

-- A long that is stored in an int.
abbrev pub to_int : ℕ → ℤ
to_int n = let r = n % 2 ^ 32 in if ltb r (2 ^ 31) then pos r else negsuc (2 ^ 32 - 1 - r)

-- The milliseconds of a timeout.
pub to_millis : Timeval → ℤ
to_millis tv = to_int (tv.tv_sec * 1000 + tv.tv_usec / 1000)

pub record FileContext : Type 0 where
  pub fd : ℕ
  pub sys_non_blocked : Bool
  pub user_non_blocked : Bool
  pub recv_timeout : ℤ
  pub send_timeout : ℤ

-- The fields of a new context, before its timeouts are read.
abbrev pub untimed : ℕ → Bool → FileContext
untimed fd blocking = record {
  fd = fd;
  sys_non_blocked = blocking;
  user_non_blocked = not blocking;
  recv_timeout = pos 0;
  send_timeout = pos 0;
}

abbrev or_else : Timeval → Option Timeval → Timeval
or_else tv none = tv
or_else tv (some u) = u

module _ {S : Type 0} (os : Os S) where
  -- Both getsockopt calls write into one `tv`, and the second one's result is not looked at.
  pub read_timeouts : S → FileContext → Option FileContext
  unfolding to_millis
  read_timeouts s c = elim (os.get_timeout s c.fd receiving) [
    | none ↦ none
    | some tv ↦ some (record c {
      recv_timeout = to_millis tv;
      send_timeout = to_millis (or_else tv (os.get_timeout s c.fd sending));
    })
  ]

  -- The constructor; none is the exception.
  unfoldable pub create : S → ℕ → S × Option FileContext
  unfolding read_timeouts
  create s fd =
      let flags = os.get_flags s fd in
      let blocking = not (has_nonblock flags) in
      let s' = if blocking then os.set_flags s fd (with_nonblock flags) else s in
      if flags == minus_one
      then (s, none)
      else if os.is_socket_file s' fd
      then (s', read_timeouts s' (untimed fd blocking))
      else (s', some (untimed fd blocking))

  -- The destructor; in a fiber it does nothing.
  pub destroy : Bool → FileContext → S → S
  destroy in_fiber c s =
      let flags = os.get_flags s c.fd in
      if in_fiber
      then s
      else if c.user_non_blocked && not (has_nonblock flags)
      then os.set_flags s c.fd (with_nonblock flags)
      else if not c.user_non_blocked && has_nonblock flags
      then os.set_flags s c.fd (without_nonblock flags)
      else s

unfoldable pub set_user_non_block : Bool → FileContext → FileContext
set_user_non_block nonblock c = record c { user_non_blocked = nonblock }

unfoldable pub set_recv_timeout : Timeval → FileContext → FileContext
unfolding to_millis
set_recv_timeout tv c = record c { recv_timeout = to_millis tv }

unfoldable pub set_send_timeout : Timeval → FileContext → FileContext
unfolding to_millis
set_send_timeout tv c = record c { send_timeout = to_millis tv }

unfoldable pub set_sys_non_block : Bool → FileContext → FileContext
set_sys_non_block nonblock c = record c { sys_non_blocked = nonblock }

-- The kernel after `configureNonBlocking`, whose result is that of F_SETFL. A failed F_GETFL sets all
-- bits.
unfoldable pub configure_non_blocking : {S : Type 0} → Os S → FileContext → S → S
configure_non_blocking os c s = os.set_flags s c.fd (with_nonblock (os.get_flags s c.fd))

-- `st_mode`, as far as S_ISFIFO and S_ISSOCK tell; of a descriptor that fstat64 refuses there is none.
pub data Kind : Type 0 where
  fifo socket other : Kind

unfoldable pub is_stream_file : Option Kind → Bool
is_stream_file (some fifo) = true
is_stream_file (some socket) = true
is_stream_file _ = false

unfoldable pub is_socket_file : Option Kind → Bool
is_socket_file (some socket) = true
is_socket_file _ = false
