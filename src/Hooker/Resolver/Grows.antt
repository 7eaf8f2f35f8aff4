-- ===== src/Hooker/Resolver/Grows.antt =====
-- gethostbyname of src/EHooker.cpp: its buffer grows until the answer fits.
use cxx_fiber.Prelude.{
  ℕ, zero, suc, ◌*◌, ◌%◌, ◌^◌, ◌<◌, ◌≤◌, ◌≡◌, ◌≢◌, ◌⊎◌, refl, inl, inr, true, false, Bool-cases,
  Option, none, some, ltb, ◌==◌, arith,
}
use cxx_fiber.Hooker.{Host, Original, Outcome, M, returned, return, skips}
use cxx_fiber.Hooker.Chains.{>>=-step}
use cxx_fiber.Hooker.Resolver.{
  HostbufWrap, e_range, prepare, provide, shrink, doubled, settle, retry, gethostbyname,
}

-- The size after `n` doublings.
abbrev pub grown : ℕ → ℕ → ℕ
grown zero s = s
grown (suc n) s = grown n (s * 2)

grown_le : (n s : ℕ) → s ≤ grown n s
grown_le zero s = omega arith
grown_le (suc n) s = omega (arith, grown_le n (s * 2))

-- With `need` bytes or more the resolver does not leave the error ERANGE behind.
abbrev pub Suffices : {S R : Type 0} → (ℕ → Original S (Option R)) → ℕ → Type 0
Suffices {S} call need =
    (size : ℕ) (s : S) (e : ℕ)
    → need ≤ size
    → (call size s e).value ≡ none
    → (call size s e).errno ≢ e_range

-- A buffer has the first size at least.
abbrev pub Sound : Option HostbufWrap → Type 0
Sound none = Unit
Sound (some w) = w.buffer ≡ true → 1024 ≤ w.size

prepare_lem :
    (local : Option HostbufWrap)
    → Sound local
    → ((prepare local).buffer ≡ true) × ((prepare local).size ≡ 1024)
unfolding prepare provide shrink
prepare_lem none h = (refl, refl)
prepare_lem (some w) h = ground arith

module _ {P S R : Type 0} (call : ℕ → Original S (Option R)) where
  -- The call ends, with a buffer that is as large as before or less than twice what is needed.
  abbrev pub Ends : ℕ → HostbufWrap → Host P S × Outcome (Option R × HostbufWrap) → Type 0
  Ends need w o =
      (g : Host P S) × (r : Option R) × (v : HostbufWrap) × (o ≡ (g, returned (r, v)))
      × (v.buffer ≡ w.buffer)
      × (w.size ≤ v.size)
      × ((v.size ≡ w.size) ⊎ (v.size < need * 2))

  settle_done :
      (again : HostbufWrap → M P S (Option R × HostbufWrap)) (need : ℕ) (w : HostbufWrap)
      (r : Option R) (h : Host P S)
      → (r ≡ none → h.errno ≢ e_range)
      → Ends need w (settle call again w r h)
  unfolding settle
  settle_done again need w (some r) h fits = (h, some r, w, refl, refl, omega arith, inl refl)
  settle_done again need w none h fits =
      let other : (h.errno == e_range) ≡ false = ground (arith, fits refl) in
      (h, none, w, rw other refl, refl, omega arith, inl refl)

  settle_again :
      (again : HostbufWrap → M P S (Option R × HostbufWrap)) (need : ℕ) (w : HostbufWrap)
      (r : Option R) (h : Host P S)
      → w.size < need
      → w.size * 2 < 2 ^ 64
      → Ends need (record w { size = w.size * 2 }) (again (record w { size = w.size * 2 }) h)
      → Ends need w (settle call again w r h)
  unfolding settle doubled
  settle_again again need w (some r) h small fits ends =
      (h, some r, w, refl, refl, omega arith, inl refl)
  settle_again again need w none h small fits (g, r, v, e, b, le, size) =
      elim (Bool-cases (h.errno == e_range)) [
        | inl grows ↦
            let wraps_not : (w.size * 2) % 2 ^ 64 ≡ w.size * 2 = omega arith in
            (g, r, v, rw (grows, wraps_not) e, b, omega arith, inr (ground arith))
        | inr other ↦ (h, none, w, rw other refl, refl, omega arith, inl refl)
      ]

  retry-Ends :
      (n need : ℕ) (w : HostbufWrap) (h : Host P S)
      → Suffices call need
      → need ≤ grown n w.size
      → grown n w.size < 2 ^ 64
      → Ends need w (retry call (suc n) w h)
  unfolding retry
  retry-Ends zero need w h suffices enough fits =
      settle_done (retry call zero) need w (call w.size h.kernel h.errno).value _
        (suffices w.size h.kernel h.errno enough)
  retry-Ends (suc n) need w h suffices enough fits =
      let a = call w.size h.kernel h.errno in
      let h' = record h { kernel = a.kernel; errno = a.errno } in
      let double = grown_le n (w.size * 2) in
      elim (Bool-cases (ltb w.size need)) [
        | inl small ↦
            settle_again (retry call (suc n)) need w a.value h' (ground arith)
              (omega (arith, double))
              (retry-Ends n need (record w { size = w.size * 2 }) h' suffices enough fits)
        | inr large ↦
            settle_done (retry call (suc n)) need w a.value h'
              (suffices w.size h.kernel h.errno (ground arith))
      ]

  -- In a fiber `gethostbyname` returns, if the buffer that `n` doublings give would do, after at most
  -- that many. It leaves a buffer of 1024 bytes, or of less than twice what the answer needs.
  -- The resolver is not to leave ERANGE behind when it fails for another reason.
  pub gethostbyname-returns :
      (gethostbyname_f : Original S (Option R)) (n need : ℕ) (local : Option HostbufWrap)
      (h : Host P S)
      → skips h ≡ false
      → Sound local
      → Suffices call need
      → need ≤ grown n 1024
      → grown n 1024 < 2 ^ 64
      → (g : Host P S) × (r : Option R) × (v : HostbufWrap) × (gethostbyname call gethostbyname_f
            (suc n)
            true
            local
            h
          ≡ (g, returned (r, some v)))
        × Sound (some v)
        × ((v.size ≡ 1024) ⊎ (v.size < need * 2))
  unfolding gethostbyname
  gethostbyname-returns gethostbyname_f n need local h run sound suffices enough fits =
      let w = prepare local in
      let (made, first) = prepare_lem local sound in
      let (g, r, v, e, b, le, size) =
        retry-Ends n need w h suffices (rw first enough) (rw first fits) in
      (
        g,
        r,
        v,
        rw run (
            >>=-step (retry call (suc n) w) (λ (x : Option R × HostbufWrap). return (x.0, some x.1))
              h g (r, v) e),
        λ has. omega (arith, le, first),
        ground (arith, size, first),
      )
