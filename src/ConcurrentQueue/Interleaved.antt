-- ===== src/ConcurrentQueue/Interleaved.antt =====
-- inc/EFiberUtil.hh: the calls of `EFiberConcurrentQueue` by any threads at once, step by step between
-- its two spin locks. A call of `add` is known by the fiber that it adds, and so is a call of `poll`
-- from the point on where it has one; what a call does to memory that no other call reaches is
-- one step.
mod Kept
pub mod Linear
mod Examples
use cxx_fiber.Prelude.{ℕ, ◌≡◌, Option, none, some, update, List, [], ◌∷◌}
use cxx_fiber.ConcurrentQueue.{Node, Store, create, Polled, empty, got, fault, Call, adds, polls}

-- Where a fiber stands: with the program, with a call of `add` that has yet to link its node, in the
-- queue, or with a call of `poll` that has yet to lend it the node that came free.
pub data Place : Type 0 where
  outside queued : Place
  waiting : (node : ℕ) → Place
  leaving : (node : ℕ) → Place

-- The spin lock `tl`: free, held by the `add` of a fiber, or held by an `add` that has linked `node`.
pub data TailLock : Type 0 where
  free : TailLock
  entering : (fiber : ℕ) → TailLock
  linked : (node : ℕ) → TailLock

-- The spin lock `hl`: free, held by a `poll` that has yet to read, or by one that has read `new_head`.
pub data HeadLock : Type 0 where
  vacant reading : HeadLock
  seen : (new_head : ℕ) → HeadLock

pub record Shared : Type 0 where
  pub store : Store
  pub place : ℕ → Place
  pub tl : TailLock
  pub hl : HeadLock

-- The queue as its constructor leaves it, with all fibers outside.
unfoldable pub start : (ℕ → ℕ) → ℕ → Shared
unfolding create
start packing dummy = record {
  store = create packing dummy;
  place = λ v. outside;
  tl = free;
  hl = vacant;
}

abbrev pub write : ℕ → Node → Store → Store
write a n s = record s { node = update s.node a n }

-- What a call returns, where it takes effect.
abbrev pub Effect : Type 0
Effect = Call × Option Polled

-- One step of a call, with its effect. `lock` is passed by the call that finds the lock free.
pub data Step (s : Shared) : Option Effect → Shared → Type 0 where
  prepares :
      (e : ℕ)
      → s.place e ≡ outside
      → Step s none (record s {
        store = write (s.store.packing e) (record { value = some e; next = none }) s.store;
        place = update s.place e (waiting (s.store.packing e));
      })
  locks_tail :
      (e node : ℕ)
      → s.place e ≡ waiting node
      → s.tl ≡ free
      → Step s none (record s { tl = entering e })
  links :
      (e node : ℕ)
      → s.tl ≡ entering e
      → s.place e ≡ waiting node
      → Step s (some (adds e, none)) (record s {
        store =
            write s.store.tail (record (s.store.node s.store.tail) { next = some node }) s.store;
        place = update s.place e queued;
        tl = linked node;
      })
  unlocks_tail :
      (node : ℕ)
      → s.tl ≡ linked node
      → Step s none (record s { store = record (s.store) { tail = node }; tl = free })
  locks_head : s.hl ≡ vacant → Step s none (record s { hl = reading })
  finds_none :
      s.hl ≡ reading
      → (s.store.node s.store.head).next ≡ none
      → Step s (some (polls, some empty)) (record s { hl = vacant })
  finds :
      (new_head : ℕ)
      → s.hl ≡ reading
      → (s.store.node s.store.head).next ≡ some new_head
      → Step s none (record s { hl = seen new_head })
  takes :
      (new_head v : ℕ)
      → s.hl ≡ seen new_head
      → (s.store.node new_head).value ≡ some v
      → Step s (some (polls, some (got v))) (record s {
        store = record (s.store) { head = new_head };
        place = update s.place v (leaving s.store.head);
        hl = vacant;
      })
  -- The value that is read is null, and is followed later.
  faults :
      (new_head : ℕ)
      → s.hl ≡ seen new_head
      → (s.store.node new_head).value ≡ none
      → Step s
          (some (polls, some fault))
          (record s { store = record (s.store) { head = new_head }; hl = vacant })
  recycles :
      (v node : ℕ)
      → s.place v ≡ leaving node
      → Step s none (record s {
        store = record (s.store) {
          node = update s.store.node node (record (s.store.node node) { value = some v });
          packing = update s.store.packing v node;
        };
        place = update s.place v outside;
      })

-- Any number of steps, with the effects in their order.
pub data Run : Shared → List Effect → Shared → Type 0 where
  stays : {s : Shared} → Run s [] s
  quiet : {s u v : Shared} {es : List Effect} → Step s none u → Run u es v → Run s es v
  takes_effect :
      {s u v : Shared} {e : Effect} {es : List Effect}
      → Step s (some e) u
      → Run u es v
      → Run s (e ∷ es) v
