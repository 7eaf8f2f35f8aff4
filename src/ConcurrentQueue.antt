-- ===== src/ConcurrentQueue.antt =====
-- inc/EFiberUtil.hh: `EFiberConcurrentQueue`, a linked queue whose nodes the fibers lend it.
mod Refines
pub mod Interleaved
mod Examples
use cxx_fiber.Prelude.{ℕ, Option, none, some, update, List, [], ◌∷◌}

-- `node_t`: the fiber that `value` points to, and the address in `next`.
pub record Node : Type 0 where
  pub value : Option ℕ
  pub next : Option ℕ

-- The nodes by address, each fiber's `packing` node, and the queue's two pointers.
pub record Store : Type 0 where
  pub node : ℕ → Node
  pub packing : ℕ → ℕ
  pub head : ℕ
  pub tail : ℕ

-- The empty queue owns one node, `dummy`.
pub create : (ℕ → ℕ) → ℕ → Store
create packing dummy = record {
  node = λ _. record { value = none; next = none };
  packing = packing;
  head = dummy;
  tail = dummy;
}

pub add : Store → ℕ → Store
add s e =
    let node = s.packing e in
    let cleared = update s.node node (record { value = some e; next = none }) in
    let linked = update cleared s.tail (record (cleared s.tail) { next = some node }) in
    record s { node = linked; tail = node }

-- What `poll` does: null, a fiber, or a read through a null `value`.
pub data Polled : Type 0 where
  empty : Polled
  got : ℕ → Polled
  fault : Polled

recycle : Store → ℕ → Option ℕ → Store × Polled
recycle s new_head none = (record s { head = new_head }, fault)
recycle s new_head (some v) =
    let node = s.head in
    let freed = record (s.node node) { value = some v } in
    (
      record s {
        head = new_head;
        node = update s.node node freed;
        packing = update s.packing v node;
      },
      got v,
    )

take_next : Store → Option ℕ → Store × Polled
unfolding recycle
take_next s none = (s, empty)
take_next s (some new_head) = recycle s new_head (s.node new_head).value

pub poll : Store → Store × Polled
unfolding take_next
poll s = take_next s (s.node s.head).next

-- A call of the queue.
pub data Call : Type 0 where
  adds : ℕ → Call
  polls : Call

-- One call, with what it returns: `add` returns nothing.
pub step : Store → Call → Store × Option Polled
step s (adds e) = (add s e, none)
step s polls = let (t, r) = poll s in (t, some r)

pub run : Store → List Call → Store × List (Option Polled)
run s [] = (s, [])
run s (c ∷ cs) = let (t, r) = step s c in let (u, rs) = run t cs in (u, r ∷ rs)
