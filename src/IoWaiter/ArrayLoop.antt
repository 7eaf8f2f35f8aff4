-- ===== src/IoWaiter/ArrayLoop.antt =====
-- An event loop on arrays for concrete runs: it keeps what src/EIoWaiter.cpp relies on.
use cxx_fiber.Prelude.Int.{pos}
use cxx_fiber.Prelude.{ℕ, ◌+◌, refl, true, update, arith}
use cxx_fiber.IoWaiter.{EventLoop, Keeps}

pub record Arrays : Type 0 where
  pub masks : ℕ → ℕ
  pub clients : ℕ → ℕ
  pub timers : ℕ

abbrev pub array_loop : EventLoop Arrays
array_loop = record {
  set_size = λ p. 1024;
  file_event_create =
      λ p fd m a. (record p { masks = update p.masks fd m; clients = update p.clients fd a }, true);
  file_event_delete = λ p fd m. record p { masks = update p.masks fd 0 };
  get_file_events = λ p fd. p.masks fd;
  client_data = λ p fd. p.clients fd;
  time_event_create = λ p t a. (record p { timers = p.timers + 1 }, pos p.timers);
  time_event_delete = λ p id. p;
}

pub array_loop-Keeps : Keeps array_loop
array_loop-Keeps = record {
  create_mask = λ p fd m a z e. ground arith;
  create_data = λ p fd m a e. ground arith;
  create_frame = λ p fd m a other ne. ground arith;
  create_size = λ p fd m a. refl;
  delete_frame = λ p fd m other ne. ground arith;
  delete_size = λ p fd m. refl;
  timer_frame = λ p t a fd. (refl, refl);
  timer_size = λ p t a. refl;
  timer_id = λ p t a. (p.timers, refl);
  cancel_frame = λ p id fd. (refl, refl);
  cancel_size = λ p id. refl;
}
