-- ===== src/FiberLocal/Values.antt =====
-- inc/EFiberLocal.hh: whose value a fiber reads, and what becomes of it when the fiber is destroyed.
use cxx_fiber.Prelude.{
  ℕ, zero, suc, ◌≡◌, ◌≢◌, ◌∙◌, refl, ap, ◌&&◌, Option, some, List, [], ◌∷◌, ◌==◌, update,
  if◌then◌else◌, arith,
}
use cxx_fiber.FiberLocal.{
  Entry, values_at, listed, Hash, FiberLocal, get, set, Freed, Memory, call_back, free_all,
}

module _ {H : Type 0} (T : Hash H) where
  set_get_cases :
      (f g : ℕ) (l m : FiberLocal) (v : Option ℕ) (w : ℕ → H)
      → T.get (update w f (T.set (w f) l.callback l.address v).0 g) m.callback
        ≡ (if f == g && l.callback == m.callback then v else T.get (w g) m.callback)
  set_get_cases f g l m v w = ground (
    arith,
    T.get_set (w f) l.callback l.address v,
    T.get_set_ne (w f) l.callback m.callback l.address v,
  )

  -- After a `set` by a fiber a `get` by a fiber reads the new value if it is the same fiber and the
  -- two locals have the same callback, and what it would have read before otherwise. So the
  -- fibers' values are apart, and two locals with one callback are one.
  pub set-get :
      (f g : ℕ) (l m : FiberLocal) (v : Option ℕ) (w : ℕ → H)
      → get T (some g) m (set T (some f) l v w).0
        ≡ (if f == g && l.callback == m.callback then v else get T (some g) m w)
  unfolding get set
  set-get f g l m v w = set_get_cases f g l m v w

-- Every key is still there, and none is null.
abbrev pub Alive : Memory → List Entry → Type 0
Alive memory [] = Unit
Alive memory (e ∷ es) = (memory e.address ≡ some e.key) × (e.key ≢ 0) × Alive memory es

-- The values that a callback has been given.
abbrev pub freed_at : ℕ → List Freed → List ℕ
freed_at k [] = []
freed_at k (c ∷ cs) = if c.callback == k then c.value ∷ freed_at k cs else freed_at k cs

call_back_lem :
    (k v : ℕ) (calls : List Freed)
    → k ≢ 0
    → call_back (some k) v (some calls) ≡ some (record { callback = k; value = v } ∷ calls)
unfolding call_back
call_back_lem zero v calls h = absurd (h refl)
call_back_lem (suc k) v calls h = refl

free_all-freed_at :
    (memory : Memory) (es : List Entry)
    → Alive memory es
    → (calls : List Freed) × (free_all memory es ≡ some calls)
      × ((k : ℕ) → freed_at k calls ≡ values_at k es)
unfolding free_all
free_all-freed_at memory [] h = ([], refl, λ k. refl)
free_all-freed_at memory (e ∷ es) (here, some_key, later) =
    let (calls, run, same) = free_all-freed_at memory es later in
    let called = call_back_lem e.key e.value calls some_key in
    (
      record { callback = e.key; value = e.value } ∷ calls,
      rw (here, run) called,
      λ k. ap (λ vs. if e.key == k then e.value ∷ vs else vs) (same k),
    )

-- The destructor of a fiber whose locals all have a callback and are still there gives each callback
-- exactly the value that the fiber has last set and not removed, if there is one, once.
pub free_all-values :
    {H : Type 0} (T : Hash H) (f : ℕ) (w : ℕ → H) (memory : Memory)
    → Alive memory (T.entries (w f))
    → (calls : List Freed) × (free_all memory (T.entries (w f)) ≡ some calls)
      × ((l : FiberLocal) → freed_at l.callback calls ≡ listed (get T (some f) l w))
unfolding get
free_all-values T f w memory alive =
    let (calls, run, same) = free_all-freed_at memory (T.entries (w f)) alive in
    (calls, run, λ l. same l.callback ∙ T.entries_values (w f) l.callback)
