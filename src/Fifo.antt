-- ===== src/Fifo.antt =====
-- The queues of the base library (EConcurrentIntrusiveDeque, EConcurrentLinkedQueue and
-- EConcurrentLiteQueue), whose code the repository does not hold: what it relies on.
use cxx_fiber.Prelude.{◌≡◌, refl, Option, none, some, List, [], ◌∷◌, ◌++◌}

-- `poll` returns null on the empty queue, and otherwise takes the oldest entry off. `to_list` is
-- the queue's content, oldest first.
pub record Fifo (A : Type 0) (Q : Type 0) : Type 0 where
  pub empty : Q
  pub add : Q → A → Q
  pub poll : Q → Option (A × Q)
  pub to_list : Q → List A
  pub to_list-empty : to_list empty ≡ []
  pub to_list-add : (q : Q) (a : A) → to_list (add q a) ≡ to_list q ++ a ∷ []
  pub poll_nil : (q : Q) → to_list q ≡ [] → poll q ≡ none
  pub poll_cons :
      (q : Q) (a : A) (rest : List A)
      → to_list q ≡ a ∷ rest
      → (r : Q) × (poll q ≡ some (a, r)) × (to_list r ≡ rest)

-- Lists are such queues.
module _ {A : Type 0} where
  abbrev poll_list : List A → Option (A × List A)
  poll_list [] = none
  poll_list (x ∷ xs) = some (x, xs)

  pub poll_list_nil : (xs : List A) → xs ≡ [] → poll_list xs ≡ none
  poll_list_nil [] e = refl
  poll_list_nil (x ∷ xs) e = cc

  pub poll_list_cons :
      (xs : List A) (a : A) (rest : List A)
      → xs ≡ a ∷ rest
      → (r : List A) × (poll_list xs ≡ some (a, r)) × (r ≡ rest)
  poll_list_cons [] a rest e = cc
  poll_list_cons (x ∷ xs) a rest e = (xs, cc, cc)

  abbrev pub list_fifo : Fifo A (List A)
  list_fifo = record {
    empty = [];
    add = λ q a. q ++ a ∷ [];
    poll = poll_list;
    to_list = λ q. q;
    to_list-empty = refl;
    to_list-add = λ q a. refl;
    poll_nil = poll_list_nil;
    poll_cons = poll_list_cons;
  }
