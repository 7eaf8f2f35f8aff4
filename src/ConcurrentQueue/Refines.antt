-- ===== src/ConcurrentQueue/Refines.antt =====
-- The linked queue of inc/EFiberUtil.hh stands for a list of fibers, and its calls for those of a list.
use cxx_fiber.Prelude.{
  ℕ, ◌≡◌, refl, sym, ap, ◌≢◌, Option, none, some, List, [], ◌∷◌, ◌++◌, map, arith, update,
  update_ne, Fresh, Distinct, Distinct-snoc,
}
use cxx_fiber.ConcurrentQueue.{
  Node, Store, create, add, Polled, empty, got, poll, Call, adds, polls, step, run,
}

-- From the node at `h` the `next` pointers lead over the packing nodes of the fibers to `t`.
abbrev pub Chain : (ℕ → Node) → (ℕ → ℕ) → ℕ → List ℕ → ℕ → Type 0
Chain m p h [] t = (h ≡ t) × ((m h).next ≡ none)
Chain m p h (v ∷ vs) t =
    ((m h).next ≡ some (p v)) × ((m (p v)).value ≡ some v) × Chain m p (p v) vs t

-- The store holds the fibers `xs`, oldest first: each stands in its own packing node, no two
-- fibers share a packing node, and the dummy node at the head is no fiber's.
pub record Holds (s : Store) (xs : List ℕ) : Type 0 where
  pub chain : Chain s.node s.packing s.head xs s.tail
  pub distinct : Distinct xs
  pub own : (v w : ℕ) → s.packing v ≡ s.packing w → v ≡ w
  pub spare : (v : ℕ) → s.packing v ≢ s.head

-- A write at a node that is not in the chain leaves the chain.
pub Chain-update :
    (m : ℕ → Node) (p : ℕ → ℕ) (h t a : ℕ) (n : Node) (xs : List ℕ)
    → h ≢ a
    → Fresh a (map p xs)
    → Chain m p h xs t
    → Chain (update m a n) p h xs t
Chain-update m p h t a n [] ne f c = ground arith
Chain-update m p h t a n (v ∷ vs) ne f c =
    (ground arith, ground arith, Chain-update m p (p v) t a n vs f.0 f.1 c.2)

pub Chain-end :
    (m : ℕ → Node) (p : ℕ → ℕ) (h t : ℕ) (xs : List ℕ) → Chain m p h xs t → (m t).next ≡ none
Chain-end m p h t [] c = ground arith
Chain-end m p h t (v ∷ vs) c = Chain-end m p (p v) t vs c.2

-- The last node of a chain is linked to the packing node of `e`.
pub Chain-snoc :
    (m : ℕ → Node) (p : ℕ → ℕ) (h t e : ℕ) (xs : List ℕ)
    → (m (p e)).value ≡ some e
    → (m (p e)).next ≡ none
    → p e ≢ t
    → Chain m p h xs t
    → Chain (update m t (record (m t) { next = some (p e) })) p h (xs ++ e ∷ []) (p e)
Chain-snoc m p h t e [] val nxt ne c = (ground arith, ground arith, ground arith)
Chain-snoc m p h t e (v ∷ vs) val nxt ne c = (
  ground (arith, Chain-end m p (p v) t vs c.2),
  ground arith,
  Chain-snoc m p (p v) t e vs val nxt ne c.2,
)

-- A chain does not see the packing node of a fiber that it does not hold.
pub Chain-packing :
    (m : ℕ → Node) (p : ℕ → ℕ) (h t v a : ℕ) (xs : List ℕ)
    → Fresh v xs
    → Chain m p h xs t
    → Chain m (update p v a) h xs t
Chain-packing m p h t v a [] f c = c
Chain-packing m p h t v a (w ∷ ws) f c =
    rw (update_ne p v w a (λ e. f.0 (sym e))) (c.0, c.1, Chain-packing m p (p w) t v a ws f.1 c.2)

pub Fresh-map :
    (p : ℕ → ℕ) (e : ℕ) (xs : List ℕ)
    → ((v w : ℕ) → p v ≡ p w → v ≡ w)
    → Fresh e xs
    → Fresh (p e) (map p xs)
Fresh-map p e [] own f = tt
Fresh-map p e (x ∷ xs) own f = ((λ q. f.0 (own x e q)), Fresh-map p e xs own f.1)

pub Fresh-unused : (p : ℕ → ℕ) (a : ℕ) (xs : List ℕ) → ((v : ℕ) → p v ≢ a) → Fresh a (map p xs)
Fresh-unused p a [] h = tt
Fresh-unused p a (x ∷ xs) h = (h x, Fresh-unused p a xs h)

-- The tail of a chain is its head, or the packing node of a fiber that it holds.
pub Chain-tail_ne :
    (m : ℕ → Node) (p : ℕ → ℕ) (h t a : ℕ) (xs : List ℕ)
    → h ≢ a
    → Fresh a (map p xs)
    → Chain m p h xs t
    → a ≢ t
Chain-tail_ne m p h t a [] ne f c = λ q. ne (ground arith)
Chain-tail_ne m p h t a (v ∷ vs) ne f c = Chain-tail_ne m p (p v) t a vs f.0 f.1 c.2

pub create-Holds :
    (packing : ℕ → ℕ) (dummy : ℕ)
    → ((v w : ℕ) → packing v ≡ packing w → v ≡ w)
    → ((v : ℕ) → packing v ≢ dummy)
    → Holds (create packing dummy) []
unfolding create
create-Holds packing dummy own spare = record {
  chain = (refl, refl);
  distinct = tt;
  own = own;
  spare = spare;
}

pub add-Holds :
    (s : Store) (e : ℕ) (xs : List ℕ) → Holds s xs → Fresh e xs → Holds (add s e) (xs ++ e ∷ [])
unfolding add
add-Holds s e xs h f = record {
  chain =
      Chain-snoc (update s.node (s.packing e) fresh_node) s.packing s.head s.tail e xs
        (ground arith) (ground arith) apart
        (Chain-update s.node s.packing s.head s.tail (s.packing e) _ xs (λ q. h.spare e (sym q))
          fresh h.chain);
  distinct = Distinct-snoc xs e h.distinct f;
  own = h.own;
  spare = h.spare;
}
  where
    fresh_node : Node
    fresh_node = record { value = some e; next = none }

    fresh : Fresh (s.packing e) (map s.packing xs)
    fresh = Fresh-map s.packing e xs h.own f

    apart : s.packing e ≢ s.tail
    apart =
        Chain-tail_ne s.node s.packing s.head s.tail (s.packing e) xs (λ q. h.spare e (sym q)) fresh
          h.chain

pub poll-Holds_nil : (s : Store) → Holds s [] → poll s ≡ (s, empty)
unfolding poll
poll-Holds_nil s h = rw (h.chain.1, poll)

-- The old dummy becomes the packing node of the fiber that leaves, whose own node is the new dummy.
recycled : Store → ℕ → Store
recycled s v = record s {
  head = s.packing v;
  node = update s.node s.head (record (s.node s.head) { value = some v });
  packing = update s.packing v s.head;
}

recycled-Holds : (s : Store) (v : ℕ) (vs : List ℕ) → Holds s (v ∷ vs) → Holds (recycled s v) vs
unfolding recycled
recycled-Holds s v vs h = record {
  chain =
      Chain-packing (recycled s v).node s.packing (s.packing v) s.tail v s.head vs h.distinct.0 (
        Chain-update s.node s.packing (s.packing v) s.tail s.head _ vs (h.spare v)
          (Fresh-unused s.packing s.head vs h.spare) h.chain.2);
  distinct = h.distinct.1;
  own = λ a b. ground (arith, h.own a b, h.spare a, h.spare b);
  spare = λ a. ground (arith, h.own a v, h.spare v);
}

pub poll-Holds :
    (s : Store) (v : ℕ) (vs : List ℕ)
    → Holds s (v ∷ vs)
    → ((poll s).1 ≡ got v) × Holds (poll s).0 vs
unfolding poll recycled
poll-Holds s v vs h = rw (h.chain.0, poll) (rw (h.chain.1, poll) (refl, recycled-Holds s v vs h))

-- The queue that the calls promise: a list, oldest fiber first.
unfoldable pub spec_step : List ℕ → Call → List ℕ × Option Polled
spec_step xs (adds e) = (xs ++ e ∷ [], none)
spec_step [] polls = ([], some empty)
spec_step (x ∷ xs) polls = (xs, some (got x))

unfoldable pub spec_run : List ℕ → List Call → List ℕ × List (Option Polled)
spec_run xs [] = (xs, [])
spec_run xs (c ∷ cs) = let (ys, r) = spec_step xs c in let (zs, rs) = spec_run ys cs in (zs, r ∷ rs)

-- No call adds a fiber that the queue holds already.
abbrev pub Allowed : List ℕ → Call → Type 0
Allowed xs (adds e) = Fresh e xs
Allowed xs polls = Unit

unfoldable pub AllAllowed : List ℕ → List Call → Type 0
AllAllowed xs [] = Unit
AllAllowed xs (c ∷ cs) = Allowed xs c × AllAllowed (spec_step xs c).0 cs

pub step-Holds :
    (s : Store) (xs : List ℕ) (c : Call)
    → Holds s xs
    → Allowed xs c
    → ((step s c).1 ≡ (spec_step xs c).1) × Holds (step s c).0 (spec_step xs c).0
unfolding step spec_step
step-Holds s xs (adds e) h a = (refl, add-Holds s e xs h a)
step-Holds s [] polls h a = rw (poll-Holds_nil s h) (refl, h)
step-Holds s (x ∷ xs) polls h a = let p = poll-Holds s x xs h in (ap some p.0, p.1)

-- From the empty queue, any calls that add no fiber twice return what a first-in first-out list
-- returns, a null read never among it, and the nodes again stand for that list.
pub run-refines :
    (s : Store) (xs : List ℕ) (cs : List Call)
    → Holds s xs
    → AllAllowed xs cs
    → ((run s cs).1 ≡ (spec_run xs cs).1) × Holds (run s cs).0 (spec_run xs cs).0
unfolding run spec_run AllAllowed
run-refines s xs [] h a = (refl, h)
run-refines s xs (c ∷ cs) h a =
    let here = step-Holds s xs c h a.0 in
    let later = run-refines (step s c).0 (spec_step xs c).0 cs here.1 a.1 in
    ((λ i. here.0 i ∷ later.0 i), later.1)
