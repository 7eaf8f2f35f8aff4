-- ===== src/Channel/Flow.antt =====
-- The channel of inc/EFiberChannel.hh: no read comes out empty, nothing is lost or reordered, and how
-- far the writers may run ahead.
use cxx_fiber.Prelude.{ℕ, ◌+◌, ◌<◌, ◌≤◌, ◌^◌, ◌≡◌, some, List, ◌++◌, length, map, arith}
use cxx_fiber.Fifo.{Fifo}
use cxx_fiber.Blocker.{Waiter}
use cxx_fiber.Channel.{Event, run, still}
use cxx_fiber.Channel.Ordered.{run-Ordered, still-Ordered}

module _ {E Q D : Type 0} (F : Fifo Waiter Q) (G : Fifo E D) where
  -- However the calls on a new channel interleave, a read never takes a null pointer, and the items
  -- that the reads have taken, followed by those that are in the queue, are the items that were
  -- written, in their order.
  pub reads_in_order :
      (capacity : ℕ) (vs : List (Event E))
      → capacity < 2 ^ 32
      → let t = run F G (still F G capacity) vs in
        t.taken ++ map some (G.to_list t.data_queue) ≡ map some t.added
  reads_in_order capacity vs small =
      (run-Ordered F G capacity (still F G capacity) vs (still-Ordered F G capacity small)).in_order

  -- However the calls on a new channel interleave, the writers are ahead of the readers by no more
  -- than the capacity: what was added and what is about to be is no more than the capacity and the
  -- reads that have begun. In a channel of capacity 0 a write waits for a read.
  pub writers_bounded :
      (capacity : ℕ) (vs : List (Event E))
      → capacity < 2 ^ 32
      → let t = run F G (still F G capacity) vs in t.adding + length t.added ≤ capacity + t.begun
  writers_bounded capacity vs small =
      let o = run-Ordered F G capacity (still F G capacity) vs (still-Ordered F G capacity small) in
      omega (arith, o.ahead)
