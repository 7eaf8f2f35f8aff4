-- ===== src/FileContext/Table/Slots.antt =====
-- src/EFileContext.cpp: which descriptors have a place of their own in the table, and what `get`
-- finds there.
use cxx_fiber.Prelude.{ℕ, ◌+◌, ◌/◌, ◌%◌, ◌≤◌, ◌<◌, ◌≡◌, ◌≢◌, ◌↔◌, Option, none, some, arith}
use cxx_fiber.FileContext.{Os, FileContext}
use cxx_fiber.FileContext.Table.{
  chunk, Table, spins, throws, found, lock_for, row_of, column_of, place_of, empty_table, get,
  remove, fill, fetch,
}

-- The macro rounds up to a multiple of the chunk's size.
abbrev pub RoundsUp : (ℕ → ℕ → ℕ) → Type 0
RoundsUp align_up =
    (n : ℕ)
    → (align_up n chunk % chunk ≡ 0) × (n ≤ align_up n chunk) × (align_up n chunk < n + chunk)

-- The pointer that the table has for a descriptor.
abbrev pub lookup : (ℕ → ℕ → ℕ) → ℕ → Table → Option ℕ
lookup align_up fd m = elim (place_of align_up fd m) [ none ↦ none | some (i, j) ↦ m.slot i j ]

module _ (align_up : ℕ → ℕ → ℕ) (ok : RoundsUp align_up) where
  row_of_lem : (fd : ℕ) → fd % chunk ≢ 0 → row_of align_up fd ≡ some (fd / chunk)
  unfolding row_of
  row_of_lem fd h = ground (arith, ok fd)

  -- Two descriptors with a place have different places.
  place_of-separates :
      (fd fd' i j : ℕ) (m : Table)
      → place_of align_up fd m ≡ some (i, j)
      → place_of align_up fd' m ≡ some (i, j)
      → fd ≡ fd'
  unfolding place_of column_of
  place_of-separates fd fd' i j m e e' = ground (arith, row_of_lem fd, row_of_lem fd')

  -- In the table made for descriptors up to `maxfd`, exactly the multiples of the chunk's size have
  -- no place, the descriptor 0 among them.
  place_of-gaps :
      (maxfd fd : ℕ) (m : Table)
      → fd ≤ maxfd
      → (place_of align_up fd (empty_table align_up maxfd m) ≡ none) ↔ (fd % chunk ≡ 0)
  unfolding place_of column_of empty_table
  place_of-gaps maxfd fd m h = ((λ e. ground (arith, row_of_lem fd, ok maxfd)), (λ z. ground arith))

  -- `remove` takes the pointer of its descriptor out, and leaves the others where they were.
  pub remove-forgets :
      (fd fd' : ℕ) (m m1 : Table)
      → remove align_up fd m ≡ some m1
      → fd' ≢ fd
      → (lookup align_up fd m1 ≡ none) × (lookup align_up fd' m1 ≡ lookup align_up fd' m)
  unfolding remove place_of column_of
  remove-forgets fd fd' m m1 e ne = (ground arith, ground (arith, row_of_lem fd, row_of_lem fd'))

module _ {S : Type 0} (os : Os S) (align_up : ℕ → ℕ → ℕ) (ok : RoundsUp align_up) where
  -- After `get` has returned a pointer, another `get` returns the same one and changes nothing, and
  -- all other descriptors have the pointers that they had.
  pub get-keeps :
      (fd a fd' : ℕ) (s s1 : S) (m m1 : Table)
      → get os align_up fd s m ≡ ((s1, m1), found a)
      → fd' ≢ fd
      → (get os align_up fd s1 m1 ≡ ((s1, m1), found a))
        × (lookup align_up fd' m1 ≡ lookup align_up fd' m)
  unfolding get fetch fill place_of row_of column_of
  get-keeps fd a fd' s s1 m m1 e ne =
      (ground arith, ground (arith, row_of_lem align_up ok fd, row_of_lem align_up ok fd'))

module _ {S : Type 0} (os : Os S) (align_up : ℕ → ℕ → ℕ) where
  -- A pointer that `get` has returned is found again, whatever has been written through pointers.
  pub get_again :
      (fd a : ℕ) (s s1 t : S) (m m1 : Table) (heap : ℕ → FileContext)
      → get os align_up fd s m ≡ ((s1, m1), found a)
      → get os align_up fd t (record m1 { heap = heap }) ≡ ((t, record m1 { heap = heap }), found a)
  unfolding get fetch fill place_of row_of column_of
  get_again fd a s s1 t m m1 heap e = ground arith

  -- A descriptor that the constructor refuses leaves its lock taken: `get` throws, and from then on
  -- every `get` of a descriptor with that lock spins for ever.
  get-locks_up :
      (fd fd' : ℕ) (s s1 : S) (m m1 : Table)
      → get os align_up fd s m ≡ ((s1, m1), throws)
      → fd % 41 ≡ fd' % 41
      → get os align_up fd' s1 m1 ≡ ((s1, m1), spins)
  unfolding get fetch fill lock_for
  get-locks_up fd fd' s s1 m m1 e l = ground arith
