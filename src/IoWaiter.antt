-- ===== src/IoWaiter.antt =====
-- src/EIoWaiter.cpp: how a fiber asks for events on files and for timers, and how it pauses. The
-- event loop of src/eco_ae.c, which this file calls, is another project's: it is an argument.
pub mod ArrayLoop
use cxx_fiber.Prelude.Int.{ℤ, pos, negsuc}
use cxx_fiber.Prelude.{
  ℕ, ◌+◌, ◌-◌, ◌%◌, ◌^◌, ◌≡◌, ◌≢◌, Bool, true, false, Option, none, some, leb, update,
  if◌then◌else◌,
}
use cxx_fiber.Runtime.{waiting, Fiber}

-- The calls of the event loop, with P for `co_poll_t`. A client's data is an address.
pub record EventLoop (P : Type 0) : Type 0 where
  pub set_size : P → ℕ
  pub file_event_create : P → ℕ → ℕ → ℕ → P × Bool  -- descriptor, mask, data; ES_SUCCESS
  pub file_event_delete : P → ℕ → ℕ → P
  pub get_file_events : P → ℕ → ℕ
  pub client_data : P → ℕ → ℕ  -- poll->events[fd].clientData
  pub time_event_create : P → ℤ → ℕ → P × ℤ
  pub time_event_delete : P → ℤ → P

-- What the event loop keeps: an accepted registration of a descriptor without one has its mask and
-- data, no call touches what another descriptor has, and a timer that is made has a
-- number that is not negative.
pub record Keeps {P : Type 0} (L : EventLoop P) : Type 0 where
  pub create_mask :
      (p : P) (fd m a : ℕ)
      → L.get_file_events p fd ≡ 0
      → (L.file_event_create p fd m a).1 ≡ true
      → L.get_file_events (L.file_event_create p fd m a).0 fd ≡ m
  pub create_data :
      (p : P) (fd m a : ℕ)
      → (L.file_event_create p fd m a).1 ≡ true
      → L.client_data (L.file_event_create p fd m a).0 fd ≡ a
  pub create_frame :
      (p : P) (fd m a other : ℕ)
      → fd ≢ other
      → (L.get_file_events (L.file_event_create p fd m a).0 other ≡ L.get_file_events p other)
        × (L.client_data (L.file_event_create p fd m a).0 other ≡ L.client_data p other)
  pub create_size :
      (p : P) (fd m a : ℕ) → L.set_size (L.file_event_create p fd m a).0 ≡ L.set_size p
  pub delete_frame :
      (p : P) (fd m other : ℕ)
      → fd ≢ other
      → (L.get_file_events (L.file_event_delete p fd m) other ≡ L.get_file_events p other)
        × (L.client_data (L.file_event_delete p fd m) other ≡ L.client_data p other)
  pub delete_size : (p : P) (fd m : ℕ) → L.set_size (L.file_event_delete p fd m) ≡ L.set_size p
  pub timer_frame :
      (p : P) (t : ℤ) (a fd : ℕ)
      → (L.get_file_events (L.time_event_create p t a).0 fd ≡ L.get_file_events p fd)
        × (L.client_data (L.time_event_create p t a).0 fd ≡ L.client_data p fd)
  pub timer_size : (p : P) (t : ℤ) (a : ℕ) → L.set_size (L.time_event_create p t a).0 ≡ L.set_size p
  pub timer_id : (p : P) (t : ℤ) (a : ℕ) → (n : ℕ) × ((L.time_event_create p t a).1 ≡ pos n)
  pub cancel_frame :
      (p : P) (id : ℤ) (fd : ℕ)
      → (L.get_file_events (L.time_event_delete p id) fd ≡ L.get_file_events p fd)
        × (L.client_data (L.time_event_delete p id) fd ≡ L.client_data p fd)
  pub cancel_size : (p : P) (id : ℤ) → L.set_size (L.time_event_delete p id) ≡ L.set_size p

-- ECO_POLL_READABLE, ECO_POLL_WRITABLE, ECO_POLL_ALL_EVENTS.
abbrev pub readable : ℕ
readable = 1

abbrev pub writable : ℕ
writable = 2

abbrev pub all_events : ℕ
all_events = 3

-- The io waiter of a thread, with the fiber that calls it.
pub record IoWaiter (P : Type 0) : Type 0 where
  pub poll : P
  pub waiters : ℕ  -- int, as its bits
  pub boxes : ℕ → Option ℕ  -- the `sp<EFiber>` made by new and not yet deleted, by address
  pub next : ℕ
  pub corrupted : Bool  -- memory that is not the program's was read or deleted
  pub fiber : Fiber
  pub self : ℕ

module _ {P : Type 0} where
  abbrev pub corrupt : IoWaiter P → IoWaiter P
  corrupt w = record w { corrupted = true }

  abbrev pub count_up : IoWaiter P → IoWaiter P
  count_up w = record w { waiters = (w.waiters + 1) % 2 ^ 32 }

  abbrev pub count_down : IoWaiter P → IoWaiter P
  count_down w = record w { waiters = (w.waiters + 2 ^ 32 - 1) % 2 ^ 32 }

  -- `new sp<EFiber>(fiber)`.
  abbrev pub allocate : IoWaiter P → IoWaiter P
  allocate w = record w { boxes = update w.boxes w.next (some w.self); next = w.next + 1 }

  -- `delete`.
  unfoldable pub release : ℕ → IoWaiter P → IoWaiter P
  release a w = elim (w.boxes a) [
    | none ↦ corrupt w
    | some _ ↦ record w { boxes = update w.boxes a none }
  ]

  unfoldable pub hang : IoWaiter P → IoWaiter P
  hang w = record w { fiber = record (w.fiber) { state = waiting } }

module _ {P : Type 0} (L : EventLoop P) where
  enlist : ℕ → ℕ → IoWaiter P → IoWaiter P
  unfolding release
  enlist fd mask w =
      let (p, ok) = L.file_event_create w.poll fd mask w.next in
      let w1 = record (allocate w) { poll = p } in if ok then w1 else release w.next w1

  -- `setFileEvent`.
  unfoldable pub set_file_event : ℕ → ℕ → IoWaiter P → IoWaiter P
  unfolding enlist hang
  set_file_event fd mask w = hang (count_up (enlist fd mask w))

  -- `delFileEvent`; an index below zero is before the array.
  unfoldable pub del_file_event : ℤ → ℕ → IoWaiter P → IoWaiter P
  unfolding release
  del_file_event (negsuc _) mask w = corrupt w
  del_file_event (pos fd) mask w =
      if leb (L.set_size w.poll) fd
      then w
      else let v = release (L.client_data w.poll fd) w in
        count_down (record v { poll = L.file_event_delete v.poll fd mask })

  -- `getFileEvent`.
  unfoldable pub get_file_event : ℤ → IoWaiter P → IoWaiter P × ℕ
  get_file_event (negsuc _) w = (corrupt w, 0)
  get_file_event (pos fd) w = (w, L.get_file_events w.poll fd)

  -- `setupTimer`.
  unfoldable pub setup_timer : ℤ → IoWaiter P → IoWaiter P × ℤ
  setup_timer timeout w =
      let (p, id) = L.time_event_create w.poll timeout w.next in
      (
        count_up (record (allocate w) { poll = p; fiber = record (w.fiber) { timed_out = false } }),
        id,
      )

  -- `cancelTimer`. The event loop deletes the box later, by `timeEventFinalizerProc`.
  unfoldable pub cancel_timer : ℤ → IoWaiter P → IoWaiter P
  cancel_timer id w = count_down (record w { poll = L.time_event_delete w.poll id })

  -- `timeEventFinalizerProc`.
  pub time_event_finalizer : ℕ → IoWaiter P → IoWaiter P
  unfolding release
  time_event_finalizer a w = release a w
