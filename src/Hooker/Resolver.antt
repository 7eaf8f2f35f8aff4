-- ===== src/Hooker/Resolver.antt =====
-- src/EHooker.cpp: __res_state and gethostbyname, which give each fiber a buffer of its own. A value
-- of the two fiber locals is an argument and a result here; FiberLocal has how they are kept.
pub mod Grows
mod Examples
use cxx_fiber.Prelude.Int.{ℤ, pos, negsuc}
use cxx_fiber.Prelude.{
  ℕ, zero, suc, ◌+◌, ◌*◌, ◌%◌, ◌^◌, Bool, true, false, ◌&&◌, Option, none, some, ltb, ◌==◌,
  if◌then◌else◌,
}
use cxx_fiber.Hooker.{Host, Original, M, ◌>>=◌, return, fail, unfinished, original, skips}

-- ERANGE of Linux.
abbrev pub e_range : ℕ
e_range = 34

-- `hostbuf_wrap`: whether it has a buffer, and `iBufferSize`. What the resolver writes into the
-- rest of it is part of the kernel's state.
pub record HostbufWrap : Type 0 where
  pub buffer : Bool
  pub size : ℕ

abbrev first_size : ℕ
first_size = 1024

-- `calloc`.
abbrev pub no_buffer : HostbufWrap
no_buffer = record { buffer = false; size = 0 }

-- A buffer that has grown is freed, and a missing one made.
unfoldable pub shrink : HostbufWrap → HostbufWrap
shrink w = if w.buffer && ltb first_size w.size then record w { buffer = false } else w

unfoldable pub provide : HostbufWrap → HostbufWrap
provide w = if w.buffer then w else record { buffer = true; size = first_size }

unfoldable pub prepare : Option HostbufWrap → HostbufWrap
unfolding shrink provide
prepare none = provide (shrink no_buffer)
prepare (some w) = provide (shrink w)

-- `realloc` of the double, of a `size_t`.
unfoldable pub doubled : HostbufWrap → HostbufWrap
doubled w = record w { size = (w.size * 2) % 2 ^ 64 }

-- The results are R; `gethostbyname_r` gets the size of the buffer.
module _ {P S R : Type 0} (gethostbyname_r : ℕ → Original S (Option R)) where
  -- What follows a call: the end, or another try with a larger buffer.
  unfoldable pub settle :
      (HostbufWrap → M P S (Option R × HostbufWrap))
      → HostbufWrap
      → Option R
      → M P S (Option R × HostbufWrap)
  unfolding doubled
  settle again w (some r) h = return (some r, w) h
  settle again w none h = if h.errno == e_range then again (doubled w) h else return (none, w) h

  -- The loop from RETRY on.
  unfoldable pub retry : ℕ → HostbufWrap → M P S (Option R × HostbufWrap)
  unfolding settle
  retry zero w = fail unfinished
  retry (suc n) w = original (gethostbyname_r w.size) >>= settle (retry n) w

  -- `gethostbyname_f` is the original call. A null name is none. The second result is the value of
  -- the local afterwards.
  unfoldable pub gethostbyname :
      Original S (Option R)
      → ℕ
      → (has_name : Bool) → Option HostbufWrap
      → M P S (Option R × Option HostbufWrap)
  unfolding retry prepare
  gethostbyname gethostbyname_f n false local h = return (none, local) h
  gethostbyname gethostbyname_f n true local h =
      if skips h
      then (original gethostbyname_f >>= λ r. return (r, local)) h
      else (retry n (prepare local) >>= λ (r, w). return (r, some w)) h

-- `__res_state`: `fresh` is what malloc returns, which the local keeps.
module _ {P S : Type 0} where
  unfoldable pub res_state : Original S ℕ → (fresh : ℕ) → (local : Option ℕ) → M P S (ℕ × Option ℕ)
  res_state res_state_f fresh local h =
      if skips h
      then (original res_state_f >>= λ r. return (r, local)) h
      else elim local [ none ↦ return (fresh, some fresh) h | some r ↦ return (r, some r) h ]
