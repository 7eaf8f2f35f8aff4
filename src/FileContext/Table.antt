-- ===== src/FileContext/Table.antt =====
-- src/EFileContext.cpp: `EFileContextManager`, the table of contexts by descriptor, with the pool of
-- spin locks of inc/EFiberUtil.hh that guards it.
pub mod Slots
use cxx_fiber.Prelude.{
  ℕ, zero, suc, ◌+◌, ◌-◌, ◌*◌, ◌/◌, ◌%◌, Bool, true, false, Option, none, some, ltb, update,
  if◌then◌else◌,
}
use cxx_fiber.FileContext.{Os, FileContext, create}

-- FD_CHUNK_CAPACITY.
abbrev pub chunk : ℕ
chunk = 32768

-- POLLSIZE.
abbrev pub pool_size : ℕ
pool_size = 41

-- `hookedFiles`, which has `rows` vectors of `chunk` pointers; a pointer is an address in `heap`.
pub record Table : Type 0 where
  pub rows : ℕ
  pub slot : ℕ → ℕ → Option ℕ
  pub heap : ℕ → FileContext
  pub next : ℕ
  pub locked : ℕ → Bool  -- the locks of the pool

-- What `get` does: it spins on its lock for ever, reads out of range, throws with the constructor,
-- or returns a pointer.
pub data Got : Type 0 where
  spins faults throws : Got
  found : ℕ → Got

-- An int less one, when it is not negative then.
abbrev less_one : ℕ → Option ℕ
less_one zero = none
less_one (suc n) = some n

-- `lockFor`.
pub lock_for : ℕ → ℕ
lock_for fd = fd % pool_size

-- ES_ALIGN_UP of the base library.
module _ (align_up : ℕ → ℕ → ℕ) where
  pub row_of : ℕ → Option ℕ
  row_of fd = less_one (align_up fd chunk / chunk)

  pub column_of : ℕ → Option ℕ
  column_of fd = less_one (fd % chunk)

  -- The place of a descriptor in the table, when both indices are in range.
  unfoldable pub place_of : ℕ → Table → Option (ℕ × ℕ)
  unfolding row_of column_of
  place_of fd m = elim (row_of fd) [
    | none ↦ none
    | some i ↦ elim (column_of fd) [
      | none ↦ none
      | some j ↦ if ltb i m.rows then some (i, j) else none
    ]
  ]

  pub empty_table : ℕ → Table → Table
  empty_table maxfd m = record m {
    rows = align_up maxfd chunk / chunk;
    slot = λ i j. none;
    locked = λ l. false;
  }

abbrev pub write_slot : ℕ → ℕ → Option ℕ → Table → Table
write_slot i j v m = record m { slot = update m.slot i (update (m.slot i) j v) }

module _ {S : Type 0} (os : Os S) where
  -- Under the lock: the constructor's exception leaves it locked.
  fill : ℕ → ℕ → ℕ → S → Table → (S × Table) × Got
  fill fd i j s m = elim (create os s fd).1 [
    | none ↦
        (((create os s fd).0, record m { locked = update m.locked (lock_for fd) true }), throws)
    | some c ↦ (
      (
        (create os s fd).0,
        write_slot i j (some m.next)
            (record m { heap = update m.heap m.next c; next = m.next + 1 }),
      ),
      found m.next,
    )
  ]

  fetch : ℕ → ℕ → ℕ → S → Table → (S × Table) × Got
  unfolding fill
  fetch fd i j s m = elim (m.slot i j) [ none ↦ fill fd i j s m | some a ↦ ((s, m), found a) ]

  unfoldable pub get : (ℕ → ℕ → ℕ) → ℕ → S → Table → (S × Table) × Got
  unfolding place_of fetch
  get align_up fd s m =
      if m.locked (lock_for fd) then ((s, m), spins) else elim (place_of align_up fd m) [
        | none ↦ ((s, m), faults)
        | some (i, j) ↦ fetch fd i j s m
      ]

-- `remove`; none where `get` would not come back or would read out of range.
unfoldable pub remove : (ℕ → ℕ → ℕ) → ℕ → Table → Option Table
unfolding place_of
remove align_up fd m =
    if m.locked (lock_for fd)
    then none
    else elim (place_of align_up fd m) [ none ↦ none | some (i, j) ↦ some (write_slot i j none m) ]

-- `clear` leaves a table without rows.
pub clear : Table → Table
clear m = record m { rows = 0 }
