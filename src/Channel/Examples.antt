-- ===== src/Channel/Examples.antt =====
-- Runs of a channel of inc/EFiberChannel.hh.
use cxx_fiber.Prelude.{ℕ, ◌+◌, ◌≤◌, ◌≡◌, List, [], ◌∷◌, ◌++◌, some, map, length, arith}
use cxx_fiber.Fifo.{list_fifo}
use cxx_fiber.Blocker.{checks, tries, swaps_out}
use cxx_fiber.Channel.{Event, reads, write_waits, adds, tells, read_waits, takes, run, still}
use cxx_fiber.Channel.Flow.{reads_in_order, writers_bounded}

-- A fiber parks in `write` of 7, another reads; `tryWrite` of 8 fails.
abbrev meeting : List (Event ℕ)
meeting =
    write_waits checks
    ∷ write_waits (swaps_out 1)
    ∷ write_waits tries
    ∷ reads
    ∷ read_waits checks
    ∷ read_waits (swaps_out 2)
    ∷ adds 7
    ∷ tells
    ∷ takes
    ∷ []

reads_in_order_example :
    let t = run list_fifo list_fifo (still list_fifo list_fifo 0) meeting in
    t.taken ++ map some t.data_queue ≡ map some t.added
reads_in_order_example = reads_in_order list_fifo list_fifo 0 meeting (omega arith)

writers_bounded_example :
    let t = run list_fifo list_fifo (still list_fifo list_fifo 0) meeting in
    t.adding + length t.added ≤ 0 + t.begun
writers_bounded_example = writers_bounded list_fifo list_fifo 0 meeting (omega arith)
