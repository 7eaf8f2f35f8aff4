-- ===== src/Prelude/Int.antt =====
-- Signed machine integers, by their value. `negsuc n` is -(n + 1).
use Prim.Native.Nat.{ℕ, zero, suc, ◌+◌, ◌-◌}
use mathlib.Core.Bool.{Bool, true, false}
use cxx_fiber.Prelude.Tests.{leb, if◌then◌else◌}

pub data ℤ : Type 0 where
  pos : ℕ → ℤ
  negsuc : ℕ → ℤ

abbrev pub is_negative : ℤ → Bool
is_negative (pos n) = false
is_negative (negsuc n) = true

-- The difference of two numbers.
abbrev pub sub_nat : ℕ → ℕ → ℤ
sub_nat m n = if leb n m then pos (m - n) else negsuc (n - m - 1)

abbrev pub negate : ℤ → ℤ
negate (pos zero) = pos 0
negate (pos (suc n)) = negsuc n
negate (negsuc n) = pos (suc n)

infixl 6 ◌+ℤ◌ ◌-ℤ◌
abbrev pub ◌+ℤ◌ : ℤ → ℤ → ℤ
pos m +ℤ pos n = pos (m + n)
pos m +ℤ negsuc n = sub_nat m (suc n)
negsuc m +ℤ pos n = sub_nat n (suc m)
negsuc m +ℤ negsuc n = negsuc (suc (m + n))

abbrev pub ◌-ℤ◌ : ℤ → ℤ → ℤ
m -ℤ n = m +ℤ negate n
