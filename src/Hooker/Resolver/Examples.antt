-- ===== src/Hooker/Resolver/Examples.antt =====
-- Lookups by gethostbyname of src/EHooker.cpp in a fiber.
use cxx_fiber.Prelude.{ℕ, ◌<◌, ◌≡◌, ◌⊎◌, refl, Option, none, some, ltb, if◌then◌else◌, arith, true}
use cxx_fiber.IoWaiter.ArrayLoop.{Arrays}
use cxx_fiber.Hooker.{Host, Original, returned, failed, unfinished}
use cxx_fiber.Hooker.Sample.{host}
use cxx_fiber.Hooker.Resolver.{
  HostbufWrap, gethostbyname, retry, settle, prepare, provide, shrink, doubled,
}
use cxx_fiber.Hooker.Resolver.Grows.{Sound, Suffices, gethostbyname-returns}

-- An answer of 3000 bytes.
abbrev lookup : ℕ → Original (ℕ → ℕ) (Option ℕ)
lookup size s e = record {
  kernel = s;
  errno = if ltb size 3000 then 34 else 0;
  value = if ltb size 3000 then none else some 1;
}

abbrev direct : Original (ℕ → ℕ) (Option ℕ)
direct s e = record { kernel = s; errno = e; value = none }

lookup-Suffices : Suffices lookup 3000
lookup-Suffices size s e enough absent = ground (arith, absent)

gethostbyname-returns_example :
    (g : Host Arrays (ℕ → ℕ)) × (r : Option ℕ) × (v : HostbufWrap) × (gethostbyname lookup direct 3
        true none host
      ≡ (g, returned (r, some v)))
    × Sound (some v)
    × ((v.size ≡ 1024) ⊎ (v.size < 6000))
gethostbyname-returns_example =
    gethostbyname-returns lookup direct 2 3000 none host refl tt lookup-Suffices (omega arith)
      (omega arith)

-- A resolver that fails and leaves errno as it is, where ERANGE stands already.
abbrev silent : ℕ → Original (ℕ → ℕ) (Option ℕ)
silent size s e = record { kernel = s; errno = e; value = none }

stale_error :
    (gethostbyname silent direct 40 true none (record host { errno = 34 })).1 ≡ failed unfinished
unfolding gethostbyname retry settle prepare provide shrink doubled
stale_error = refl
