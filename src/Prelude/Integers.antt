-- ===== src/Prelude/Integers.antt =====
-- Integers over the native numbers.
use Prim.Native.Nat.{ℕ, ◌+◌, ◌-◌, ◌*◌}
use mathlib.Core.Bool.{Bool, true}
use hashring_rs.Prelude.Tests.{ltb, leb, if◌then◌else◌}

-- `negsuc n` is `- (n + 1)`.
pub data ℤ : Type 0 where
  pos negsuc : ℕ → ℤ

infixl 60 ◌-ℤ◌ ◌+ℤ◌
infixl 70 ◌*ℤ◌
-- A natural number less another.
abbrev pub ◌-ℤ◌ : ℕ → ℕ → ℤ
m -ℤ n = if ltb m n then negsuc (n - m - 1) else pos (m - n)

abbrev pub ◌+ℤ◌ : ℤ → ℤ → ℤ
pos m +ℤ pos n = pos (m + n)
pos m +ℤ negsuc n = m -ℤ (n + 1)
negsuc m +ℤ pos n = n -ℤ (m + 1)
negsuc m +ℤ negsuc n = negsuc (m + n + 1)

-- An integer some times.
abbrev pub ◌*ℤ◌ : ℤ → ℕ → ℤ
pos m *ℤ n = pos (m * n)
negsuc m *ℤ n = 0 -ℤ ((m + 1) * n)

abbrev pub at_most : ℤ → ℕ → Bool
at_most (pos m) n = leb m n
at_most (negsuc m) n = true
