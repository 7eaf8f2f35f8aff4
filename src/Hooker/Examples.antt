-- ===== src/Hooker/Examples.antt =====
-- Calls of `connect` and `sendfile` of src/EHooker.cpp on concrete files.
use cxx_fiber.Prelude.Int.{ℤ, pos, negsuc}
use cxx_fiber.Prelude.{
  ℕ, ◌+◌, ◌≡◌, ◌≢◌, ◌<◌, ◌≤◌, ◌↔◌, refl, none, some, Option, arith, if◌then◌else◌, ltb,
}
use cxx_fiber.Hooker.{Original, Host, returned, get_file_context, e_in_progress, pause}
use cxx_fiber.IoWaiter.ArrayLoop.{Arrays, array_loop}
use cxx_fiber.Hooker.Sample.{kernel, context, host, round_up, ready, others}
use cxx_fiber.Hooker.Connect.{connect, connect-settles}
use cxx_fiber.Hooker.Sendfile.{sendfile}
use cxx_fiber.Hooker.Sendfile.Rounds.{Blocks, sendfile-sends_all}

-- The connection is under way at first, and refused after the pause.
abbrev attempt : Original (ℕ → ℕ) ℤ
attempt s e = record { kernel = s; errno = 115; value = negsuc 0 }

abbrev refused : ℕ → Original (ℕ → ℕ) (Option ℕ)
refused fd s e = record { kernel = s; errno = e; value = some 111 }

connect-settles_example :
    (connect array_loop others kernel round_up refused attempt 5 host).0.errno ≢ e_in_progress
unfolding connect get_file_context pause
connect-settles_example =
    connect-settles array_loop others kernel round_up refused
      (λ fd s e. (ground arith, λ fails. absurd (ground (arith, fails)))) attempt 5 context host
      host (connect array_loop others kernel round_up refused attempt 5 host).0 (negsuc 0) refl refl
      refl refl refl

host-Blocks : Blocks kernel round_up 5 context host host
unfolding get_file_context
host-Blocks = record { in_fiber = refl; stream = refl; got = refl; blocking = refl }

-- At most 6 bytes at a time.
abbrev give : ℕ → ℕ → ℕ
give o c = if ltb c 6 then c else 6

abbrev piecewise : Option ℕ → ℕ → Original (ℕ → ℕ) (ℤ × Option ℕ)
piecewise none c s e = record { kernel = s; errno = e; value = (pos (give 0 c), none) }
piecewise (some o) c s e = record {
  kernel = s;
  errno = e;
  value = (pos (give o c), some (o + give o c));
}

sendfile-sends_all_example :
    (g : Host Arrays (ℕ → ℕ)) × (r : ℕ) × (sendfile array_loop others ready piecewise kernel
        round_up 10 5
        (some 40)
        10
        host
      ≡ (g, returned (pos r, some 50)))
    × (0 < r)
    × (r ≤ 10)
    × ((r ≡ 10) ↔ (give 40 10 ≡ 10))
sendfile-sends_all_example =
    sendfile-sends_all array_loop others ready piecewise kernel round_up 5 10 context host host give
      10 40 host-Blocks (λ fds t s e. refl) (λ o c s e. refl) (λ o c l. ground arith)
      (λ o c. ground arith) (omega arith) (omega arith) (omega arith)
