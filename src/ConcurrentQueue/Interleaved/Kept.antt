-- ===== src/ConcurrentQueue/Interleaved/Kept.antt =====
-- inc/EFiberUtil.hh: each step of the interleaved calls leaves a memory that stands for a list.
use cxx_fiber.Prelude.{
  ℕ, ◌≡◌, refl, sym, ◌≢◌, ◌∙◌, none, some, List, [], ◌∷◌, ◌++◌, map, arith, update, Fresh, Distinct,
  Distinct-snoc, Fresh-append,
}
use cxx_fiber.ConcurrentQueue.Refines.{
  Chain, Chain-update, Chain-end, Chain-snoc, Chain-packing, Chain-tail_ne, Fresh-map,
}
use cxx_fiber.ConcurrentQueue.Interleaved.{
  outside, queued, waiting, leaving, free, entering, linked, HeadLock, vacant, seen, Shared, write,
}

-- The memory stands for the list `xs`, oldest fiber first. `node_of` is the node that a fiber has or is
-- about to get, and `last` the last node, which an `add` may have yet to make the tail.
pub record Inv (s : Shared) (xs : List ℕ) (node_of : ℕ → ℕ) (last : ℕ) : Type 0 where
  pub chain : Chain s.store.node node_of s.store.head xs last
  pub distinct : Distinct xs
  pub own : (v w : ℕ) → node_of v ≡ node_of w → v ≡ w
  pub spare : (v : ℕ) → node_of v ≢ s.store.head
  pub absent : (v : ℕ) → s.place v ≢ queued → Fresh v xs
  pub kept : (v : ℕ) → s.place v ≡ outside → node_of v ≡ s.store.packing v
  pub lent : (v n : ℕ) → s.place v ≡ leaving n → node_of v ≡ n
  pub ready :
      (v n : ℕ)
      → s.place v ≡ waiting n
      → (node_of v ≡ n) × ((s.store.node n).value ≡ some v) × ((s.store.node n).next ≡ none)
  pub at_free : s.tl ≡ free → s.store.tail ≡ last
  pub at_entering : (e : ℕ) → s.tl ≡ entering e → s.store.tail ≡ last
  pub at_linked : (n : ℕ) → s.tl ≡ linked n → n ≡ last
  pub at_seen : (n : ℕ) → s.hl ≡ seen n → (s.store.node s.store.head).next ≡ some n

-- A fiber is added by one call at a time, and not while it is in the queue: the step `prepares` is for
-- fibers outside.
module _ (s : Shared) (xs : List ℕ) (node_of : ℕ → ℕ) (last : ℕ) (inv : Inv s xs node_of last) where
  open inv use {
    chain, distinct, own, spare, absent, kept, lent, ready, at_free, at_entering, at_linked,
    at_seen,
  }

  Fresh-node_of : (v : ℕ) → s.place v ≢ queued → Fresh (node_of v) (map node_of xs)
  Fresh-node_of v out = Fresh-map node_of v xs own (absent v out)

  pub locks_tail-Inv : (e : ℕ) → s.tl ≡ free → Inv (record s { tl = entering e }) xs node_of last
  locks_tail-Inv e f = record {
    chain = chain;
    distinct = distinct;
    own = own;
    spare = spare;
    absent = absent;
    kept = kept;
    lent = lent;
    ready = ready;
    at_free = λ _. at_free f;
    at_entering = λ _ _. at_free f;
    at_linked = λ n q. cc;
    at_seen = at_seen;
  }

  pub unlocks_tail-Inv :
      (node : ℕ)
      → s.tl ≡ linked node
      → Inv (record s { store = record (s.store) { tail = node }; tl = free }) xs node_of last
  unlocks_tail-Inv node l = record {
    chain = chain;
    distinct = distinct;
    own = own;
    spare = spare;
    absent = absent;
    kept = kept;
    lent = lent;
    ready = ready;
    at_free = λ _. at_linked node l;
    at_entering = λ n q. cc;
    at_linked = λ n q. cc;
    at_seen = at_seen;
  }

  pub head-Inv :
      (h : HeadLock)
      → ((n : ℕ) → h ≡ seen n → (s.store.node s.store.head).next ≡ some n)
      → Inv (record s { hl = h }) xs node_of last
  head-Inv h ok = record {
    chain = chain;
    distinct = distinct;
    own = own;
    spare = spare;
    absent = absent;
    kept = kept;
    lent = lent;
    ready = ready;
    at_free = at_free;
    at_entering = at_entering;
    at_linked = at_linked;
    at_seen = ok;
  }

  pub prepares-Inv :
      (e : ℕ)
      → s.place e ≡ outside
      → Inv
          (record s {
            store = write (s.store.packing e) (record { value = some e; next = none }) s.store;
            place = update s.place e (waiting (s.store.packing e));
          })
          xs
          node_of
          last
  prepares-Inv e out =
      let here = kept e out in
      let away : s.place e ≢ queued = λ q. cc in
      let fresh = rw here at (Fresh-node_of e away) in
      record {
        chain =
            Chain-update s.store.node node_of s.store.head last (s.store.packing e) _ xs
              (λ q. spare e (here ∙ sym q)) fresh chain;
        distinct = distinct;
        own = own;
        spare = spare;
        absent = λ v. ground (arith, absent v, absent e);
        kept = λ v. ground (arith, kept v);
        lent = λ v n. ground (arith, lent v n);
        ready = λ v n. ground (arith, ready v n, here, own v e);
        at_free = at_free;
        at_entering = at_entering;
        at_linked = at_linked;
        at_seen = λ n. ground (arith, at_seen n, spare e, here);
      }

  pub recycles-Inv :
      (v node : ℕ)
      → s.place v ≡ leaving node
      → Inv
          (record s {
            store = record (s.store) {
              node = update s.store.node node (record (s.store.node node) { value = some v });
              packing = update s.store.packing v node;
            };
            place = update s.place v outside;
          })
          xs
          node_of
          last
  recycles-Inv v node out =
      let here = lent v node out in
      let away : s.place v ≢ queued = λ q. cc in
      let fresh = rw here at (Fresh-node_of v away) in
      record {
        chain =
            Chain-update s.store.node node_of s.store.head last node _ xs
              (λ q. spare v (here ∙ sym q)) fresh chain;
        distinct = distinct;
        own = own;
        spare = spare;
        absent = λ w. ground (arith, absent w, absent v);
        kept = λ w. ground (arith, kept w, here);
        lent = λ w n. ground (arith, lent w n);
        ready = λ w n. ground (arith, ready w n, here, own v w);
        at_free = at_free;
        at_entering = at_entering;
        at_linked = at_linked;
        at_seen = λ n. ground (arith, at_seen n, spare v, here);
      }

  -- The call of `add` takes effect.
  pub links-Inv :
      (e node : ℕ)
      → s.tl ≡ entering e
      → s.place e ≡ waiting node
      → Inv
          (record s {
            store =
                write s.store.tail
                  (record (s.store.node s.store.tail) { next = some node })
                  s.store;
            place = update s.place e queued;
            tl = linked node;
          })
          (xs ++ e ∷ [])
          node_of
          node
  links-Inv e node l w =
      let end = at_entering e l in
      let (here, val, nxt) = ready e node w in
      let away : s.place e ≢ queued = λ q. cc in
      let apart = λ (v : ℕ) (out : s.place v ≢ queued).
        Chain-tail_ne s.store.node node_of s.store.head last (node_of v) xs (λ q. spare v (sym q))
          (Fresh-node_of v out) chain in
      record {
        chain = rw end (
            rw here at (
              Chain-snoc s.store.node node_of s.store.head last e xs (rw here val) (rw here nxt)
                (apart e away) chain));
        distinct = Distinct-snoc xs e distinct (absent e away);
        own = own;
        spare = spare;
        absent = λ v out.
            Fresh-append v xs (e ∷ []) (absent v (λ q. out (ground (arith, q))))
              ((λ q. out (ground (arith, q))), tt);
        kept = λ v. ground (arith, kept v);
        lent = λ v n. ground (arith, lent v n);
        ready = λ v n. ground (arith, ready v n, apart v, end);
        at_free = λ q. cc;
        at_entering = λ n q. cc;
        at_linked = λ n q. cc;
        at_seen = λ n q.
            ground
              (arith, at_seen n q, Chain-end s.store.node node_of s.store.head last xs chain, end);
      }

-- The call of `poll` takes effect: the fiber at the front leaves, and will have the old dummy.
module _ (s : Shared) (w : ℕ) (ys : List ℕ) (node_of : ℕ → ℕ) (last : ℕ)
    (inv : Inv s (w ∷ ys) node_of last) where
  open inv use {
    chain, distinct, own, spare, absent, kept, lent, ready, at_free, at_entering, at_linked,
  }

  takes_first-Inv :
      Inv
        (record s {
          store = record (s.store) { head = node_of w };
          place = update s.place w (leaving s.store.head);
          hl = vacant;
        })
        ys
        (update node_of w s.store.head)
        last
  takes_first-Inv = record {
    chain =
        Chain-packing s.store.node node_of (node_of w) last w s.store.head ys distinct.0 chain.2;
    distinct = distinct.1;
    own = λ a b. ground (arith, own a b, spare a, spare b);
    spare = λ a. ground (arith, own a w, spare w);
    absent = λ v out. ground (arith, distinct.0, absent v, out);
    kept = λ v. ground (arith, kept v);
    lent = λ v n. ground (arith, lent v n);
    ready = λ v n. ground (arith, ready v n);
    at_free = at_free;
    at_entering = at_entering;
    at_linked = at_linked;
    at_seen = λ n q. cc;
  }

module _ (s : Shared) (node_of : ℕ → ℕ) (last new_head : ℕ) (h : s.hl ≡ seen new_head) where
  pub takes-Inv :
      (xs : List ℕ) (v : ℕ)
      → Inv s xs node_of last
      → (s.store.node new_head).value ≡ some v
      → (ys : List ℕ) × (xs ≡ v ∷ ys)
        × Inv
            (record s {
              store = record (s.store) { head = new_head };
              place = update s.place v (leaving s.store.head);
              hl = vacant;
            })
            ys
            (update node_of v s.store.head)
            last
  takes-Inv [] v inv val = absurd (ground (arith, inv.at_seen new_head h, inv.chain.1))
  takes-Inv (w ∷ ys) v inv val =
      let head : new_head ≡ node_of w = ground (arith, inv.at_seen new_head h, inv.chain.0) in
      let first : v ≡ w = ground (arith, rw head at val, inv.chain.1) in
      rw (first, head) (ys, refl, takes_first-Inv s w ys node_of last inv)

  -- A node behind the head has a value.
  pub faults_never : (xs : List ℕ) → Inv s xs node_of last → (s.store.node new_head).value ≢ none
  faults_never [] inv missing = absurd (ground (arith, inv.at_seen new_head h, inv.chain.1))
  faults_never (w ∷ ys) inv missing =
      let head : new_head ≡ node_of w = ground (arith, inv.at_seen new_head h, inv.chain.0) in
      absurd (ground (arith, rw head at missing, inv.chain.1))
