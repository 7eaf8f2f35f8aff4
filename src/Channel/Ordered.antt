-- ===== src/Channel/Ordered.antt =====
-- The channel of inc/EFiberChannel.hh: the invariant of the calls under way.
use cxx_fiber.Prelude.{
  ℕ, ◌+◌, ◌<◌, ◌≤◌, ◌^◌, ◌≡◌, refl, sym, ap, ◌∙◌, inl, inr, true, Bool-cases, ltb, Option, some,
  List, [], ◌∷◌, ◌++◌, length, map, arith,
}
use mathlib.Core.List.{map-append, append_assoc}
use cxx_fiber.Prelude.{length-append}
use cxx_fiber.Fifo.{Fifo}
use cxx_fiber.Blocker
use cxx_fiber.Blocker.{
  Waiter, Blocker, Reply, passed, resumed, no_limit, Call, checks, tries, wakes, waits_thread,
  swaps_out,
}
use cxx_fiber.Blocker.Permits.{
  Inv, create-Inv, step-Inv, granted, accepted, step_balance, accepted_wait,
}
use cxx_fiber.Channel.{
  Traffic, Event, reads, write_waits, adds, tells, read_waits, withdraws, takes, is_wait, goes_on,
  create, at_writer, at_reader, take, act, run, still,
}

module _ {E Q D : Type 0} (F : Fifo Waiter Q) (G : Fifo E D) where
  -- The permits of the writers come from the capacity and from reads, and those of the readers from
  -- items; the items that were added are those taken, then those in the queue.
  pub record Ordered (capacity : ℕ) (t : Traffic E Q D) : Type 0 where
    pub readers_fair : Inv F t.reader
    pub writers_fair : Inv F t.writer
    pub ahead : t.writer.wakeup + t.adding + length t.added ≤ capacity + t.begun
    pub covered : t.reader.wakeup + t.taking + t.telling + length t.taken ≤ length t.added
    pub in_order : t.taken ++ map some (G.to_list t.data_queue) ≡ map some t.added

  in_order-add :
      (xs : List (Option E)) (q : D) (ys : List E) (e : E)
      → xs ++ map some (G.to_list q) ≡ map some ys
      → xs ++ map some (G.to_list (G.add q e)) ≡ map some (ys ++ e ∷ [])
  in_order-add xs q ys e same =
      ap (λ l. xs ++ map some l) (G.to_list-add q e)
      ∙ ap (◌++◌ xs) (map-append some (G.to_list q) (e ∷ []))
      ∙ sym (append_assoc xs (map some (G.to_list q)) (some e ∷ []))
      ∙ ap (λ l. l ++ some e ∷ []) same
      ∙ sym (map-append some ys (e ∷ []))

  length-map-some : (ys : List E) → length (map some ys) ≡ length ys
  length-map-some [] = refl
  length-map-some (y ∷ ys) = omega (arith, length-map-some ys)

  queue-split :
      (xs : List (Option E)) (q : D) (ds ys : List E)
      → G.to_list q ≡ ds
      → xs ++ map some ds ≡ map some ys
      → length xs < length ys
      → (e : E) × (rest : D) × (G.poll q ≡ some (e, rest))
        × (xs ++ map some (G.to_list q) ≡ (xs ++ some e ∷ []) ++ map some (G.to_list rest))
  queue-split xs q [] ys known same lt =
      absurd (omega (arith, length-append xs (map some []), ap length same, length-map-some ys))
  queue-split xs q (e ∷ ds) ys known same lt =
      let (rest, polled, left) = G.poll_cons q e ds known in
      (
        e,
        rest,
        polled,
        ap (λ l. xs ++ map some l) known
            ∙ sym (append_assoc xs (some e ∷ []) (map some ds))
            ∙ ap (λ l. (xs ++ some e ∷ []) ++ map some l) (sym left),
      )

  -- As long as more was added than taken, the queue has an item.
  queue-some :
      (xs : List (Option E)) (q : D) (ys : List E)
      → xs ++ map some (G.to_list q) ≡ map some ys
      → length xs < length ys
      → (e : E) × (rest : D) × (G.poll q ≡ some (e, rest))
        × (xs ++ map some (G.to_list q) ≡ (xs ++ some e ∷ []) ++ map some (G.to_list rest))
  queue-some xs q ys same lt = queue-split xs q (G.to_list q) ys refl same lt

  goes_on-granted : (r : Reply) → goes_on r ≡ granted r
  goes_on-granted r = ground arith

  accepted_one : (r : Reply) → accepted r ≤ 1
  accepted_one r = ground arith

  -- A call of a blocker: what it hands out was there or came in.
  call_lem :
      (b : Blocker Q) (c : Call)
      → Inv F b
      → let (b', r) = Blocker.step F b c in
        Inv F b'
        × (b'.wakeup + goes_on r ≤ b.wakeup + 1)
        × (is_wait c ≡ true → b'.wakeup + goes_on r ≡ b.wakeup)
  call_lem b c v =
      let r = (Blocker.step F b c).1 in
      (
        step-Inv F b c v,
        ground (arith, step_balance F b c v, goes_on-granted r, accepted_one r),
        λ w. ground (arith, step_balance F b c v, goes_on-granted r, accepted_wait F b c),
      )

  take-Ordered :
      (capacity : ℕ) (t : Traffic E Q D)
      → 0 < t.taking
      → Ordered capacity t
      → Ordered capacity (take F G t)
  unfolding take
  take-Ordered capacity t there o =
      let (e, rest, polled, moved) =
        queue-some t.taken t.data_queue t.added o.in_order (omega (arith, o.covered)) in
      let longer = length-append t.taken (some e ∷ []) in
      rw (take, polled)
        record {
          readers_fair = o.readers_fair;
          writers_fair = o.writers_fair;
          ahead = o.ahead;
          covered = omega (arith, longer, o.covered);
          in_order = sym moved ∙ o.in_order;
        }

  act-Ordered :
      (capacity : ℕ) (t : Traffic E Q D) (v : Event E)
      → Ordered capacity t
      → Ordered capacity (act F G t v)
  unfolding act at_writer at_reader
  act-Ordered capacity t reads o =
      let (v, most, kept) = call_lem t.writer wakes o.writers_fair in
      record {
        readers_fair = o.readers_fair;
        writers_fair = v;
        ahead = omega (arith, most, o.ahead);
        covered = o.covered;
        in_order = o.in_order;
      }
  act-Ordered capacity t (write_waits c) o = elim (Bool-cases (is_wait c)) [
    | inl w ↦
        let (v, most, kept) = call_lem t.writer c o.writers_fair in
        rw w record {
          readers_fair = o.readers_fair;
          writers_fair = v;
          ahead = omega (arith, kept w, o.ahead);
          covered = o.covered;
          in_order = o.in_order;
        }
    | inr no_wait ↦ rw no_wait o
  ]
  act-Ordered capacity t (adds e) o = elim (Bool-cases (ltb 0 t.adding)) [
    | inl some_call ↦
        let there : 0 < t.adding = ground arith in
        let longer = length-append t.added (e ∷ []) in
        rw some_call record {
          readers_fair = o.readers_fair;
          writers_fair = o.writers_fair;
          ahead = omega (arith, longer, o.ahead);
          covered = omega (arith, longer, o.covered);
          in_order = in_order-add t.taken t.data_queue t.added e o.in_order;
        }
    | inr no_call ↦ rw no_call o
  ]
  act-Ordered capacity t tells o = elim (Bool-cases (ltb 0 t.telling)) [
    | inl some_call ↦
        let (v, most, kept) = call_lem t.reader wakes o.readers_fair in
        let there : 0 < t.telling = ground arith in
        rw some_call record {
          readers_fair = v;
          writers_fair = o.writers_fair;
          ahead = o.ahead;
          covered = omega (arith, most, o.covered);
          in_order = o.in_order;
        }
    | inr no_call ↦ rw no_call o
  ]
  act-Ordered capacity t (read_waits c) o = elim (Bool-cases (is_wait c)) [
    | inl w ↦
        let (v, most, kept) = call_lem t.reader c o.readers_fair in
        rw w record {
          readers_fair = v;
          writers_fair = o.writers_fair;
          ahead = o.ahead;
          covered = omega (arith, kept w, o.covered);
          in_order = o.in_order;
        }
    | inr no_wait ↦ rw no_wait o
  ]
  act-Ordered capacity t withdraws o =
      let (v, most, kept) = call_lem t.writer tries o.writers_fair in
      record {
        readers_fair = o.readers_fair;
        writers_fair = v;
        ahead = omega (arith, kept refl, o.ahead);
        covered = o.covered;
        in_order = o.in_order;
      }
  act-Ordered capacity t takes o = elim (Bool-cases (ltb 0 t.taking)) [
    | inl some_call ↦
        let there : 0 < t.taking = ground arith in rw some_call (take-Ordered capacity t there o)
    | inr no_call ↦ rw no_call o
  ]

  pub run-Ordered :
      (capacity : ℕ) (t : Traffic E Q D) (vs : List (Event E))
      → Ordered capacity t
      → Ordered capacity (run F G t vs)
  unfolding run
  run-Ordered capacity t [] o = o
  run-Ordered capacity t (v ∷ vs) o =
      run-Ordered capacity (act F G t v) vs (act-Ordered capacity t v o)

  pub still-Ordered : (capacity : ℕ) → capacity < 2 ^ 32 → Ordered capacity (still F G capacity)
  unfolding still create
  still-Ordered capacity small = record {
    readers_fair = create-Inv F 0 no_limit (omega arith) (omega arith);
    writers_fair = create-Inv F capacity no_limit (omega arith) (omega arith);
    ahead = omega arith;
    covered = omega arith;
    in_order = ap (map some) G.to_list-empty;
  }
