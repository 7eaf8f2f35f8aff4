-- ===== src/FiberLocal.antt =====
-- src/EFiberLocal.hh (inc/EFiberLocal.hh), and what the destructor in src/EFiber.cpp does with the
-- values: variables that each fiber has for itself. The hash table is the base library's.
pub mod Values
mod Examples
use cxx_fiber.Prelude.{
  ℕ, zero, suc, ◌≡◌, ◌≢◌, Bool, true, false, Option, none, some, List, [], ◌∷◌, ◌==◌, update,
  if◌then◌else◌,
}

-- An entry of the table: the bytes of its key, where the key stands in memory, and the value, which
-- is not null.
pub record Entry : Type 0 where
  pub key : ℕ
  pub address : ℕ
  pub value : ℕ

-- The values that stand with a key.
abbrev pub values_at : ℕ → List Entry → List ℕ
values_at k [] = []
values_at k (e ∷ es) = if e.key == k then e.value ∷ values_at k es else values_at k es

abbrev pub listed : Option ℕ → List ℕ
listed none = []
listed (some v) = v ∷ []

-- `eso_hash_get`, `eso_hash_set` and the iteration. Keys are compared by their bytes, a null value
-- takes the entry out, and the table holds the address of a key, not a copy.
pub record Hash (H : Type 0) : Type 0 where
  pub make : H
  pub get : H → (key : ℕ) → Option ℕ
  pub set : H → (key : ℕ) → (address : ℕ) → Option ℕ → H × Option ℕ
  pub entries : H → List Entry
  pub get_make : (k : ℕ) → get make k ≡ none
  pub get_set : (h : H) (k a : ℕ) (v : Option ℕ) → get (set h k a v).0 k ≡ v
  pub get_set_ne : (h : H) (k j a : ℕ) (v : Option ℕ) → k ≢ j → get (set h k a v).0 j ≡ get h j
  pub entries_values : (h : H) (k : ℕ) → values_at k (entries h) ≡ listed (get h k)

-- `EFiberLocal`: its key is its `keyWrap`, which is the callback, zero for null.
pub record FiberLocal : Type 0 where
  pub callback : ℕ
  pub address : ℕ

module _ {H : Type 0} (T : Hash H) where
  -- The tables of the fibers; the first argument is the current fiber.
  unfoldable pub get : Option ℕ → FiberLocal → (ℕ → H) → Option ℕ
  get none l w = none
  get (some f) l w = T.get (w f) l.callback

  unfoldable pub set : Option ℕ → FiberLocal → Option ℕ → (ℕ → H) → (ℕ → H) × Option ℕ
  set none l v w = (w, none)
  set (some f) l v w = let (h, r) = T.set (w f) l.callback l.address v in (update w f h, r)

  unfoldable pub remove : Option ℕ → FiberLocal → (ℕ → H) → (ℕ → H) × Option ℕ
  remove none l w = (w, none)
  remove (some f) l w = let (h, r) = T.set (w f) l.callback l.address none in (update w f h, r)

-- A call of a callback on a value.
pub record Freed : Type 0 where
  pub callback : ℕ
  pub value : ℕ

-- The callback that stands in memory, none where the local is gone.
abbrev pub Memory : Type 0
Memory = ℕ → Option ℕ

unfoldable pub call_back : Option ℕ → ℕ → Option (List Freed) → Option (List Freed)
call_back none value rest = none
call_back (some zero) value rest = none
call_back (some (suc c)) value none = none
call_back (some (suc c)) value (some calls) =
    some (record { callback = suc c; value = value } ∷ calls)

-- The loop of `~EFiber`: the calls that it makes, or none when it calls a null pointer or reads a key
-- that is gone.
unfoldable pub free_all : Memory → List Entry → Option (List Freed)
unfolding call_back
free_all memory [] = some []
free_all memory (e ∷ es) = call_back (memory e.address) e.value (free_all memory es)
