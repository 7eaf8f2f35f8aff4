-- ===== src/Prelude/Lists.antt =====
-- Lists over the native numbers, and stores `ℕ → A` that are written at one place.
use Prim.Native.Nat.{ℕ, zero, suc, ◌+◌}
use mathlib.Core.Path.{◌≡◌, fun_ext}
use mathlib.Core.Logic.{◌≢◌}
use mathlib.Core.List.{List, [], ◌∷◌, ◌++◌}
use mathlib.Core.Option.{Option, none, some}
use native.Mathlib.Omega.{arith}
use cxx_fiber.Prelude.Tests.{◌==◌, if◌then◌else◌}

module _ {ℓ} {A : Type ℓ} where
  abbrev pub length : List A → ℕ
  length [] = 0
  length (x ∷ xs) = suc (length xs)

  abbrev pub get_elem? : List A → ℕ → Option A
  get_elem? [] i = none
  get_elem? (x ∷ xs) zero = some x
  get_elem? (x ∷ xs) (suc i) = get_elem? xs i

  -- A write out of range changes nothing.
  abbrev pub set : List A → ℕ → A → List A
  set [] i v = []
  set (x ∷ xs) zero v = v ∷ xs
  set (x ∷ xs) (suc i) v = x ∷ set xs i v

  abbrev pub replicate : ℕ → A → List A
  replicate zero a = []
  replicate (suc n) a = a ∷ replicate n a

  pub length-append : (xs ys : List A) → length (xs ++ ys) ≡ length xs + length ys
  length-append [] ys = omega arith
  length-append (x ∷ xs) ys = omega (arith, length-append xs ys)

  -- The store `f` with `a` written at `i`.
  abbrev pub update : (ℕ → A) → ℕ → A → ℕ → A
  update f i a j = if i == j then a else f j

  -- A write at `i` is read back at `i`.
  pub update_self : (f : ℕ → A) (i : ℕ) (a : A) → update f i a i ≡ a
  update_self f i a = ground arith

  pub update_ne : (f : ℕ → A) (i j : ℕ) (a : A) → i ≢ j → update f i a j ≡ f j
  update_ne f i j a h = ground arith

module _ {ℓ} {A : Type ℓ} where
  pub update-update : (f : ℕ → A) (i : ℕ) (a b : A) → update (update f i a) i b ≡ update f i b
  update-update f i a b = fun_ext (λ j. ground arith)

  -- Writing what stands there changes nothing.
  pub update_same : (f : ℕ → A) (i : ℕ) (a : A) → f i ≡ a → update f i a ≡ f
  update_same f i a e = fun_ext (λ j. ground arith)

-- `x` does not stand in the list.
abbrev pub Fresh : ℕ → List ℕ → Type 0
Fresh x [] = Unit
Fresh x (y ∷ ys) = (y ≢ x) × Fresh x ys

-- The entries differ from one another.
abbrev pub Distinct : List ℕ → Type 0
Distinct [] = Unit
Distinct (x ∷ xs) = Fresh x xs × Distinct xs

pub Fresh-append : (x : ℕ) (xs ys : List ℕ) → Fresh x xs → Fresh x ys → Fresh x (xs ++ ys)
Fresh-append x [] ys h k = k
Fresh-append x (y ∷ xs) ys h k = (h.0, Fresh-append x xs ys h.1 k)

pub Distinct-snoc : (xs : List ℕ) (x : ℕ) → Distinct xs → Fresh x xs → Distinct (xs ++ x ∷ [])
Distinct-snoc [] x d f = (tt, tt)
Distinct-snoc (y ∷ xs) x d f =
    (Fresh-append y xs (x ∷ []) d.0 (((λ e. f.0 (ground arith)), tt)), Distinct-snoc xs x d.1 f.1)
