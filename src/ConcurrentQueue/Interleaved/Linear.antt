-- ===== src/ConcurrentQueue/Interleaved/Linear.antt =====
-- inc/EFiberUtil.hh: however the calls of threads interleave, they take effect as on a list.
use cxx_fiber.Prelude.{ℕ, ◌≡◌, refl, ◌≢◌, Option, none, some, List, [], ◌∷◌, arith, update}
use cxx_fiber.ConcurrentQueue.{Polled, Call}
use cxx_fiber.ConcurrentQueue.Refines.{spec_step, spec_run}
use cxx_fiber.ConcurrentQueue.Interleaved.{
  vacant, reading, seen, Shared, Effect, Step, prepares, locks_tail, links, unlocks_tail,
  locks_head, finds_none, finds, takes, faults, recycles, Run, stays, quiet, takes_effect, start,
}
use cxx_fiber.ConcurrentQueue.Interleaved.Kept.{
  Inv, locks_tail-Inv, unlocks_tail-Inv, head-Inv, prepares-Inv, recycles-Inv, links-Inv, takes-Inv,
  faults_never,
}

-- An empty queue is one whose head has no next node.
empty_list :
    (s : Shared) (xs : List ℕ) (node_of : ℕ → ℕ) (last : ℕ)
    → Inv s xs node_of last
    → (s.store.node s.store.head).next ≡ none
    → xs ≡ []
empty_list s [] node_of last inv e = refl
empty_list s (w ∷ ys) node_of last inv e = absurd (ground (arith, inv.chain.0))

-- The memory stands for a list after the step, on which the effect is that of the call on a list.
abbrev pub Follows : List ℕ → Option Effect → Shared → Type 0
Follows xs none t = (node_of : ℕ → ℕ) × (last : ℕ) × Inv t xs node_of last
Follows xs (some (c, r)) t =
    (r ≡ (spec_step xs c).1)
    × ((node_of : ℕ → ℕ) × (last : ℕ) × Inv t (spec_step xs c).0 node_of last)

step-Follows :
    (s t : Shared) (xs : List ℕ) (node_of : ℕ → ℕ) (last : ℕ) (e : Option Effect)
    → Inv s xs node_of last
    → Step s e t
    → Follows xs e t
unfolding spec_step
step-Follows s t xs node_of last e inv (prepares f out) =
    (node_of, last, prepares-Inv s xs node_of last inv f out)
step-Follows s t xs node_of last e inv (locks_tail f node w l) =
    (node_of, last, locks_tail-Inv s xs node_of last inv f l)
step-Follows s t xs node_of last e inv (links f node l w) =
    (refl, (node_of, node, links-Inv s xs node_of last inv f node l w))
step-Follows s t xs node_of last e inv (unlocks_tail node l) =
    (node_of, last, unlocks_tail-Inv s xs node_of last inv node l)
step-Follows s t xs node_of last e inv (locks_head h) =
    (node_of, last, head-Inv s xs node_of last inv reading (λ n q. cc))
step-Follows s t xs node_of last e inv (finds_none h none_next) =
    let none_left = empty_list s xs node_of last inv none_next in
    let inv' = rw none_left at inv in
    rw none_left (refl, (node_of, last, head-Inv s [] node_of last inv' vacant (λ n q. cc)))
step-Follows s t xs node_of last e inv (finds new_head h next) =
    (node_of, last, head-Inv s xs node_of last inv (seen new_head) (λ n q. ground (arith, q, next)))
step-Follows s t xs node_of last e inv (takes new_head v h val) =
    let (ys, same, inv') = takes-Inv s node_of last new_head h xs v inv val in
    rw same (refl, (update node_of v s.store.head, last, inv'))
step-Follows s t xs node_of last e inv (faults new_head h missing) =
    absurd (faults_never s node_of last new_head h xs inv missing)
step-Follows s t xs node_of last e inv (recycles v node out) =
    (node_of, last, recycles-Inv s xs node_of last inv v node out)

abbrev pub calls : List Effect → List Call
calls [] = []
calls (e ∷ es) = e.0 ∷ calls es

abbrev pub returns : List Effect → List (Option Polled)
returns [] = []
returns (e ∷ es) = e.1 ∷ returns es

-- The effects of a run are those of its calls on the list, one after another.
abbrev pub Linear : List ℕ → List Effect → Shared → Type 0
Linear xs es t =
    (returns es ≡ (spec_run xs (calls es)).1)
    × ((node_of : ℕ → ℕ) × (last : ℕ) × Inv t (spec_run xs (calls es)).0 node_of last)

run-Linear :
    (s t : Shared) (xs : List ℕ) (node_of : ℕ → ℕ) (last : ℕ) (es : List Effect)
    → Inv s xs node_of last
    → Run s es t
    → Linear xs es t
unfolding spec_run
run-Linear s t xs node_of last es inv stays = (refl, (node_of, last, inv))
run-Linear s t xs node_of last es inv (quiet {u = u} step rest) =
    let (q, l, inv') = step-Follows s u xs node_of last none inv step in
    run-Linear u t xs q l es inv' rest
run-Linear s t xs node_of last (e ∷ es) inv (takes_effect {u = u} step rest) =
    let (r, (q, l, inv')) = step-Follows s u xs node_of last (some e) inv step in
    let (rs, holds) = run-Linear u t (spec_step xs e.0).0 q l es inv' rest in
    ((λ i. r i ∷ rs i), holds)

-- However any number of calls of `add` and `poll` interleave between their locks, from the empty
-- queue, each takes effect at one point of its run, and they return what the same calls return on a
-- first-in first-out list, one after another in the order of these points; a null value is never
-- read. The fibers are to have nodes of their own, and a fiber is added by one call at a time while
-- it is not in the queue.
pub interleaved-Linear :
    (packing : ℕ → ℕ) (dummy : ℕ) (es : List Effect) (t : Shared)
    → ((v w : ℕ) → packing v ≡ packing w → v ≡ w)
    → ((v : ℕ) → packing v ≢ dummy)
    → Run (start packing dummy) es t
    → Linear [] es t
unfolding start
interleaved-Linear packing dummy es t own spare steps =
    let begin : Inv (start packing dummy) [] packing dummy = record {
      chain = (refl, refl);
      distinct = tt;
      own = own;
      spare = spare;
      absent = λ v out. tt;
      kept = λ v q. refl;
      lent = λ v n q. cc;
      ready = λ v n q. cc;
      at_free = λ q. refl;
      at_entering = λ n q. refl;
      at_linked = λ n q. cc;
      at_seen = λ n q. cc;
    } in
    run-Linear (start packing dummy) t [] packing dummy es begin steps
