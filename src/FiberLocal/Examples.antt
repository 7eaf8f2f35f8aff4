-- ===== src/FiberLocal/Examples.antt =====
-- Locals of inc/EFiberLocal.hh in two fibers, with a log of writes for the table.
use cxx_fiber.Prelude.{
  ℕ, ◌≡◌, ◌≢◌, ◌∙◌, refl, Option, none, some, List, [], ◌∷◌, ◌==◌, if◌then◌else◌, arith,
}
use cxx_fiber.FiberLocal.{
  Entry, values_at, listed, Hash, FiberLocal, get, set, Freed, free_all, call_back,
}
use cxx_fiber.FiberLocal.Values.{set-get, free_all-values, freed_at}

record Write : Type 0 where
  key : ℕ
  address : ℕ
  value : Option ℕ

abbrev read : List Write → ℕ → Option ℕ
read [] k = none
read (w ∷ ws) k = if w.key == k then w.value else read ws k

abbrev without : ℕ → List Entry → List Entry
without k [] = []
without k (e ∷ es) = if e.key == k then without k es else e ∷ without k es

abbrev noted : ℕ → ℕ → Option ℕ → List Entry → List Entry
noted k a none es = es
noted k a (some v) es = record { key = k; address = a; value = v } ∷ es

abbrev noted_entries : List Write → List Entry
noted_entries [] = []
noted_entries (w ∷ ws) = noted w.key w.address w.value (without w.key (noted_entries ws))

values_at-without :
    (j k : ℕ) (es : List Entry)
    → values_at k (without j es) ≡ (if j == k then [] else values_at k es)
values_at-without j k [] = ground arith
values_at-without j k (e ∷ es) = ground (arith, values_at-without j k es)

values_at-noted :
    (k j a : ℕ) (v : Option ℕ) (es : List Entry)
    → values_at k (noted j a v (without j es)) ≡ (if j == k then listed v else values_at k es)
values_at-noted k j a none es = ground (arith, values_at-without j k es)
values_at-noted k j a (some v) es = ground (arith, values_at-without j k es)

noted_entries-values :
    (ws : List Write) (k : ℕ) → values_at k (noted_entries ws) ≡ listed (read ws k)
noted_entries-values [] k = refl
noted_entries-values (w ∷ ws) k =
    values_at-noted k w.key w.address w.value (noted_entries ws)
    ∙ ground (arith, noted_entries-values ws k)

abbrev written : List Write → ℕ → ℕ → Option ℕ → List Write
written h k a v = record { key = k; address = a; value = v } ∷ h

read_same : (h : List Write) (k a : ℕ) (v : Option ℕ) → read (written h k a v) k ≡ v
read_same h k a v = ground arith

read_other :
    (h : List Write) (k j a : ℕ) (v : Option ℕ) → k ≢ j → read (written h k a v) j ≡ read h j
read_other h k j a v ne = ground arith

abbrev log : Hash (List Write)
log = record {
  make = [];
  get = read;
  set = λ h k a v. (written h k a v, read h k);
  entries = noted_entries;
  get_make = λ k. refl;
  get_set = read_same;
  get_set_ne = read_other;
  entries_values = noted_entries-values;
}

abbrev buffer : FiberLocal
buffer = record { callback = 4096; address = 1 }

abbrev state : FiberLocal
state = record { callback = 8192; address = 2 }

abbrev nobody : ℕ → List Write
nobody f = []

set-get_example : get log (some 1) buffer (set log (some 1) buffer (some 77) nobody).0 ≡ some 77
set-get_example = set-get log 1 1 buffer buffer (some 77) nobody

-- A local without a callback: the destructor calls a null pointer.
null_callback :
    free_all
      (λ a. some 0)
      (log.entries ((set log (some 1) (record { callback = 0; address = 3 }) (some 5) nobody).0 1))
    ≡ none
unfolding free_all call_back set
null_callback = refl

abbrev both_set : ℕ → List Write
both_set = (set log (some 1) state (some 5) (set log (some 1) buffer (some 77) nobody).0).0

free_all-values_example :
    (calls : List Freed) × (free_all
        (λ a. if a == 1 then some 4096 else some 8192)
        (log.entries (both_set 1))
      ≡ some calls)
    × ((l : FiberLocal) → freed_at l.callback calls ≡ listed (get log (some 1) l both_set))
unfolding set
free_all-values_example =
    free_all-values log 1 both_set (λ a. if a == 1 then some 4096 else some 8192)
      (refl, omega arith, (refl, omega arith, tt))
