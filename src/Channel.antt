-- ===== src/Channel.antt =====
-- inc/EFiberChannel.hh: a channel, made of a queue and two blockers. The steps are the calls of these
-- that its methods make; between two of them any others can come in.
pub mod Flow
mod Ordered
mod Examples
use cxx_fiber.Prelude.{
  ℕ, ◌+◌, ◌-◌, Bool, true, false, not, ◌&&◌, ltb, Option, none, some, List, [], ◌∷◌, ◌++◌,
  if◌then◌else◌,
}
use cxx_fiber.Fifo.{Fifo}
use cxx_fiber.Blocker
use cxx_fiber.Blocker.{
  Waiter, Blocker, Reply, passed, resumed, no_limit, Call, checks, tries, wakes, waits_thread,
  swaps_out, is_waking,
}

pub record Channel (Q D : Type 0) : Type 0 where
  pub data_queue : D
  pub reader : Blocker Q
  pub writer : Blocker Q

-- The calls under way: how many stand before `dataQueue.add`, before `reader.wakeUp` and before
-- `dataQueue.poll`; and what has happened: how many reads have begun, what was added, and what the
-- reads have taken, none being a null pointer.
pub record Traffic (E Q D : Type 0) : Type 0 where
  pub channel : Channel Q D
  pub open channel use *
  pub adding : ℕ
  pub telling : ℕ
  pub taking : ℕ
  pub begun : ℕ
  pub added : List E
  pub taken : List (Option E)

pub data Event (E : Type 0) : Type 0 where
  reads : Event E  -- `writer.wakeUp` of `read` and `tryRead`
  write_waits : Call → Event E  -- a call of `writer.wait` in `write`, or of `tryWait` in `tryWrite`
  adds : E → Event E  -- `dataQueue.add`
  tells : Event E  -- `reader.wakeUp`
  read_waits : Call → Event E  -- a call of `reader.wait` in `read`, or of `tryWait` in `tryRead`
  withdraws : Event E  -- `writer.tryWait` in `tryRead`
  takes : Event E  -- `dataQueue.poll`

-- A call of a blocker other than `wakeUp`.
abbrev pub is_wait : Call → Bool
is_wait wakes = false
is_wait c = true

-- The reply lets a caller go on, itself or one that was parked before.
abbrev pub goes_on : Reply → ℕ
goes_on passed = 1
goes_on (resumed w) = 1
goes_on r = 0

module _ {E Q D : Type 0} (F : Fifo Waiter Q) (G : Fifo E D) where
  unfoldable pub create : ℕ → Channel Q D
  unfolding Blocker.create
  create capacity = record {
    data_queue = G.empty;
    reader = Blocker.create F 0 no_limit;
    writer = Blocker.create F capacity no_limit;
  }

  unfoldable pub is_empty : Channel Q D → Bool
  unfolding is_waking
  is_empty c = not (is_waking c.reader)

  -- A call of the blocker of the writers.
  pub at_writer : Call → Traffic E Q D → Traffic E Q D × Reply
  unfolding Blocker.step
  at_writer call t =
      let (b, r) = Blocker.step F t.writer call in
      (record t { channel = record (t.channel) { writer = b } }, r)

  pub at_reader : Call → Traffic E Q D → Traffic E Q D × Reply
  unfolding Blocker.step
  at_reader call t =
      let (b, r) = Blocker.step F t.reader call in
      (record t { channel = record (t.channel) { reader = b }; taking = t.taking + goes_on r }, r)

  -- The oldest item, or a null pointer.
  pub take : Traffic E Q D → Traffic E Q D
  take t = elim (G.poll t.data_queue) [
    | none ↦ record t { taking = t.taking - 1; taken = t.taken ++ none ∷ [] }
    | some (e, rest) ↦ record t {
      channel = record (t.channel) { data_queue = rest };
      taking = t.taking - 1;
      taken = t.taken ++ some e ∷ [];
    }
  ]

  -- A step. Where no call stands that could make it, nothing happens.
  pub act : Traffic E Q D → Event E → Traffic E Q D
  unfolding at_writer at_reader take
  act t reads =
      let (u, r) = at_writer wakes t in
      record u { adding = t.adding + goes_on r; begun = t.begun + 1 }
  act t (write_waits c) =
      let (u, r) = at_writer c t in
      if is_wait c then record u { adding = t.adding + goes_on r } else t
  act t (adds e) =
      if ltb 0 t.adding
      then record t {
        channel = record (t.channel) { data_queue = G.add t.data_queue e };
        adding = t.adding - 1;
        telling = t.telling + 1;
        added = t.added ++ e ∷ [];
      }
      else t
  act t tells =
      if ltb 0 t.telling then (at_reader wakes (record t { telling = t.telling - 1 })).0 else t
  act t (read_waits c) = if is_wait c then (at_reader c t).0 else t
  act t withdraws = (at_writer tries t).0
  act t takes = if ltb 0 t.taking then take t else t

  pub run : Traffic E Q D → List (Event E) → Traffic E Q D
  unfolding act
  run t [] = t
  run t (v ∷ vs) = run (act t v) vs

  -- A new channel, without calls.
  pub still : ℕ → Traffic E Q D
  unfolding create
  still capacity = record {
    channel = create capacity;
    adding = 0;
    telling = 0;
    taking = 0;
    begun = 0;
    added = [];
    taken = [];
  }
