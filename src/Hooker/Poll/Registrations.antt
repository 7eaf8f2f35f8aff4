-- ===== src/Hooker/Poll/Registrations.antt =====
-- `poll` of src/EHooker.cpp: the registrations that its loops make and take back.
use cxx_fiber.Prelude.Int.{pos, negsuc}
use cxx_fiber.Prelude.{
  ℕ, ◌+◌, ◌-◌, sym, ◌∙◌, ap, ◌%◌, map, ◌==◌, if◌then◌else◌, ◌^◌, ◌<◌, ◌≤◌, ◌≡◌, ◌≢◌, true, some,
  List, [], ◌∷◌, length, arith, refl,
}
use cxx_fiber.IoWaiter.{
  EventLoop, Keeps, IoWaiter, all_events, set_file_event, del_file_event, get_file_event,
}
use cxx_fiber.Hooker.Poll.{Pollfd, to_mask, of_mask, register_one, register, delete_all, collect}

abbrev pub fd_of : Pollfd → ℕ
fd_of p = elim p.fd [ pos n ↦ n | negsuc _ ↦ 0 ]

-- No entry has this descriptor.
abbrev pub Absent : ℕ → List Pollfd → Type 0
Absent fd [] = Unit
Absent fd (p ∷ ps) = (fd_of p ≢ fd) × Absent fd ps

-- The descriptors are in range, and differ from one another.
abbrev pub Fits : ℕ → List Pollfd → Type 0
Fits size [] = Unit
Fits size (p ∷ ps) = (p.fd ≡ pos (fd_of p)) × (fd_of p < size) × Absent (fd_of p) ps × Fits size ps

module _ {P : Type 0} (L : EventLoop P) where
  -- Nobody waits on these files.
  abbrev pub Idle : P → List Pollfd → Type 0
  Idle p [] = Unit
  Idle p (q ∷ ps) = (L.get_file_events p (fd_of q) ≡ 0) × Idle p ps

  -- The files are registered with what the entries ask for, the data being the addresses from `k` on,
  -- where boxes of the fiber `s` stand.
  abbrev pub Enrolled : IoWaiter P → ℕ → ℕ → List Pollfd → Type 0
  Enrolled w s k [] = Unit
  Enrolled w s k (p ∷ ps) =
      (L.get_file_events w.poll (fd_of p) ≡ to_mask p.events)
      × (L.client_data w.poll (fd_of p) ≡ k)
      × (w.boxes k ≡ some s)
      × Enrolled w s (k + 1) ps

-- The entry with all that it asks for reported, and how many entries ask for something.
abbrev pub fully : Pollfd → Pollfd
fully p = record p { revents = of_mask (to_mask p.events) }

abbrev pub asking : List Pollfd → ℕ
asking [] = 0
asking (p ∷ ps) = let n = asking ps in if of_mask (to_mask p.events) == 0 then n else n + 1

-- The kernel accepts every descriptor.
abbrev pub Accepts : {P : Type 0} → EventLoop P → Type 0
Accepts {P} L = (p : P) (fd m a : ℕ) → (L.file_event_create p fd m a).1 ≡ true

module _ {P : Type 0} (L : EventLoop P) (ok : Keeps L) (accepts : Accepts L) where
  -- A registration leaves other descriptors and older boxes alone.
  register_one-frame :
      (p : Pollfd) (w : IoWaiter P) (fd a : ℕ)
      → fd_of p ≢ fd
      → a < w.next
      → (L.get_file_events (register_one L p w).poll fd ≡ L.get_file_events w.poll fd)
        × (L.client_data (register_one L p w).poll fd ≡ L.client_data w.poll fd)
        × ((register_one L p w).boxes a ≡ w.boxes a)
        × (w.next ≤ (register_one L p w).next)
  unfolding register_one set_file_event
  register_one-frame p w fd a ne lt = ground (
    arith,
    ok.create_frame w.poll (fd_of p) (to_mask p.events) w.next fd,
    accepts w.poll (fd_of p) (to_mask p.events) w.next,
  )

  register_one-enrols :
      (p : Pollfd) (w : IoWaiter P)
      → p.fd ≡ pos (fd_of p)
      → L.get_file_events w.poll (fd_of p) ≡ 0
      → let v = register_one L p w in
        (L.get_file_events v.poll (fd_of p) ≡ to_mask p.events)
        × (L.client_data v.poll (fd_of p) ≡ w.next)
        × (v.boxes w.next ≡ some w.self)
        × (v.next ≡ w.next + 1)
        × (v.self ≡ w.self)
        × (v.corrupted ≡ w.corrupted)
        × (v.waiters ≡ (w.waiters + 1) % 2 ^ 32)
        × (L.set_size v.poll ≡ L.set_size w.poll)
  unfolding register_one set_file_event
  register_one-enrols p w e z = ground (
    arith,
    ok.create_mask w.poll (fd_of p) (to_mask p.events) w.next,
    ok.create_data w.poll (fd_of p) (to_mask p.events) w.next,
    ok.create_size w.poll (fd_of p) (to_mask p.events) w.next,
    accepts w.poll (fd_of p) (to_mask p.events) w.next,
  )

  register-frame :
      (ps : List Pollfd) (w : IoWaiter P) (fd a : ℕ)
      → Absent fd ps
      → a < w.next
      → (L.get_file_events (register L ps w).poll fd ≡ L.get_file_events w.poll fd)
        × (L.client_data (register L ps w).poll fd ≡ L.client_data w.poll fd)
        × ((register L ps w).boxes a ≡ w.boxes a)
  unfolding register
  register-frame [] w fd a d lt = (refl, refl, refl)
  register-frame (p ∷ ps) w fd a d lt =
      ground (arith, register_one-frame p w fd a, register-frame ps (register_one L p w) fd a d.1)

  register_one_mask :
      (p : Pollfd) (w : IoWaiter P) (fd : ℕ)
      → fd_of p ≢ fd
      → L.get_file_events (register_one L p w).poll fd ≡ L.get_file_events w.poll fd
  unfolding register_one set_file_event
  register_one_mask p w fd ne = ground (
    arith,
    ok.create_frame w.poll (fd_of p) (to_mask p.events) w.next fd,
    accepts w.poll (fd_of p) (to_mask p.events) w.next,
  )

  Idle-register_one :
      (p : Pollfd) (ps : List Pollfd) (w : IoWaiter P)
      → Absent (fd_of p) ps
      → Idle L w.poll ps
      → Idle L (register_one L p w).poll ps
  Idle-register_one p [] w d i = tt
  Idle-register_one p (q ∷ ps) w d i =
      (register_one_mask p w (fd_of q) (λ e. d.0 (sym e)) ∙ i.0, Idle-register_one p ps w d.1 i.1)

  -- What the registration loop leaves behind.
  pub register-enrols :
      (ps : List Pollfd) (w : IoWaiter P) (size k s : ℕ)
      → k ≡ w.next
      → s ≡ w.self
      → Fits size ps
      → Idle L w.poll ps
      → w.waiters < 2 ^ 32
      → Enrolled L (register L ps w) s k ps
        × ((register L ps w).next ≡ k + length ps)
        × ((register L ps w).corrupted ≡ w.corrupted)
        × ((register L ps w).waiters ≡ (w.waiters + length ps) % 2 ^ 32)
        × (L.set_size (register L ps w).poll ≡ L.set_size w.poll)
  unfolding register
  register-enrols [] w size k s ek es f i small = ground arith
  register-enrols (p ∷ ps) w size k s ek es f i small =
      let h = register_one-enrols p w f.0 i.0 in
      let t =
        register-enrols ps (register_one L p w) size (k + 1) s (omega (arith, h.3)) (es ∙ sym h.4)
          f.3 (Idle-register_one p ps w f.2 i.1) (omega (arith, h.6)) in
      let fr = register-frame ps (register_one L p w) (fd_of p) w.next f.2 (omega (arith, h.3)) in
      (
        (
          fr.0 ∙ h.0,
          fr.1 ∙ h.1 ∙ sym ek,
          ap (register L ps (register_one L p w)).boxes ek ∙ fr.2 ∙ h.2 ∙ ap some (sym es),
          t.0,
        ),
        omega (arith, t.1),
        t.2 ∙ h.5,
        omega (arith, t.3, h.6),
        t.4 ∙ h.7,
      )

  -- The steps that take a registration back.
  pub delete_one :
      (p : Pollfd) (w : IoWaiter P) (k s : ℕ)
      → p.fd ≡ pos (fd_of p)
      → fd_of p < L.set_size w.poll
      → L.client_data w.poll (fd_of p) ≡ k
      → w.boxes k ≡ some s
      → let v = del_file_event L p.fd all_events w in
        (v.corrupted ≡ w.corrupted)
        × (v.waiters ≡ (w.waiters + 2 ^ 32 - 1) % 2 ^ 32)
        × (L.set_size v.poll ≡ L.set_size w.poll)
  unfolding del_file_event
  delete_one p w k s e lt d b = ground (arith, ok.delete_size w.poll (fd_of p) all_events)

  Enrolled-delete_one :
      (p : Pollfd) (ps : List Pollfd) (w : IoWaiter P) (k k' s : ℕ)
      → p.fd ≡ pos (fd_of p)
      → Absent (fd_of p) ps
      → L.client_data w.poll (fd_of p) ≡ k
      → k < k'
      → Enrolled L w s k' ps
      → Enrolled L (del_file_event L p.fd all_events w) s k' ps
  unfolding del_file_event
  Enrolled-delete_one p [] w k k' s e a d lt n = tt
  Enrolled-delete_one p (q ∷ ps) w k k' s e a d lt n =
      let rest = Enrolled-delete_one p ps w k (k' + 1) s e a.1 d (omega arith) n.3 in
      let fr = ok.delete_frame w.poll (fd_of p) all_events (fd_of q) in
      (ground arith, ground arith, ground arith, rest)

  -- The loop after a timeout takes every registration back.
  pub delete_all-balances :
      (ps : List Pollfd) (w : IoWaiter P) (k s size : ℕ)
      → size ≡ L.set_size w.poll
      → Fits size ps
      → Enrolled L w s k ps
      → w.waiters < 2 ^ 32
      → ((delete_all L ps w).corrupted ≡ w.corrupted)
        × (((delete_all L ps w).waiters + length ps) % 2 ^ 32 ≡ w.waiters)
        × ((delete_all L ps w).waiters < 2 ^ 32)
  unfolding delete_all
  delete_all-balances [] w k s size e f n small = ground arith
  delete_all-balances (p ∷ ps) w k s size e f n small =
      let h = delete_one p w k s f.0 (omega arith) n.1 n.2 in
      let t =
        delete_all-balances ps (del_file_event L p.fd all_events w) (k + 1) s size (e ∙ sym h.2) f.3
          (Enrolled-delete_one p ps w k (k + 1) s f.0 f.2 n.1 (omega arith) n.3)
          (omega (arith, h.1)) in
      (t.0 ∙ h.0, omega (arith, t.1, h.1), t.2)

  get_one :
      (p : Pollfd) (w : IoWaiter P)
      → p.fd ≡ pos (fd_of p)
      → get_file_event L p.fd w ≡ (w, L.get_file_events w.poll (fd_of p))
  unfolding get_file_event
  get_one p w e = ground arith

  -- The loop after an event does so too, and finds in every entry what it asked for.
  pub collect-balances :
      (ps : List Pollfd) (w : IoWaiter P) (k s size : ℕ)
      → size ≡ L.set_size w.poll
      → Fits size ps
      → Enrolled L w s k ps
      → w.waiters < 2 ^ 32
      → ((collect L ps w).0.corrupted ≡ w.corrupted)
        × (((collect L ps w).0.waiters + length ps) % 2 ^ 32 ≡ w.waiters)
        × ((collect L ps w).0.waiters < 2 ^ 32)
        × ((collect L ps w).1 ≡ map fully ps)
        × ((collect L ps w).2 ≡ asking ps)
  unfolding collect
  collect-balances [] w k s size e f n small = ground arith
  collect-balances (p ∷ ps) w k s size e f n small =
      let h = delete_one p w k s f.0 (omega arith) n.1 n.2 in
      let t =
        collect-balances ps (del_file_event L p.fd all_events w) (k + 1) s size (e ∙ sym h.2) f.3
          (Enrolled-delete_one p ps w k (k + 1) s f.0 f.2 n.1 (omega arith) n.3)
          (omega (arith, h.1)) in
      rw (get_one p w f.0, n.0)
        (t.0 ∙ h.0, omega (arith, t.1, h.1), t.2, ap (λ qs. fully p ∷ qs) t.3, ground arith)
