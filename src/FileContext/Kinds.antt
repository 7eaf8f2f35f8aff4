-- ===== src/FileContext/Kinds.antt =====
-- src/EFileContext.cpp: the predicates on descriptors, and the mode that the library sets.
use cxx_fiber.Prelude.{ℕ, ◌≡◌, refl, true, false, Option, none, some, arith}
use cxx_fiber.FileContext.{
  Os, FileContext, has_nonblock, with_nonblock, Kind, fifo, socket, other, is_stream_file,
  is_socket_file, configure_non_blocking,
}
use cxx_fiber.FileContext.Modes.{with-has}

-- Every socket is a stream, and a stream that is no socket is a pipe.
stream_cases :
    (k : Option Kind)
    → (is_socket_file k ≡ true → is_stream_file k ≡ true)
      × (is_stream_file k ≡ true → is_socket_file k ≡ false → k ≡ some fifo)
unfolding is_stream_file is_socket_file
stream_cases none = ((λ e. absurd (ground (arith, e))), (λ e f. absurd (ground (arith, e))))
stream_cases (some fifo) = ((λ e. refl), (λ e f. refl))
stream_cases (some socket) = ((λ e. refl), (λ e f. absurd (ground (arith, f))))
stream_cases (some other) = ((λ e. absurd (ground (arith, e))), (λ e f. absurd (ground (arith, e))))

-- In a kernel that keeps the flags that it is given, the file is non-blocking afterwards.
configure_non_blocking-has_nonblock :
    {S : Type 0} (os : Os S) (c : FileContext) (s : S)
    → ((v : ℕ) → os.get_flags (os.set_flags s c.fd v) c.fd ≡ v)
    → has_nonblock (os.get_flags (configure_non_blocking os c s) c.fd) ≡ true
unfolding configure_non_blocking
configure_non_blocking-has_nonblock os c s keeps =
    rw (keeps (with_nonblock (os.get_flags s c.fd))) (with-has (os.get_flags s c.fd))
