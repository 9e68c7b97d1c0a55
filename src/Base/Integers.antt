-- ===== src/Base/Integers.antt =====
-- Integers over the native numbers: `pos n` is `n`, and `negsuc n` is `-(n + 1)`.
use Prim.Native.Nat.{ℕ, suc, ◌+◌, ◌-◌}
use bocpy.Base.Tests.{ltb, if◌then◌else◌}

pub data ℤ : Type 0 where
  pos : ℕ → ℤ
  negsuc : ℕ → ℤ

-- The sum of an integer and a number.
abbrev pub ◌+ℤ◌ : ℤ → ℕ → ℤ
pos a +ℤ b = pos (a + b)
negsuc a +ℤ b = if ltb a b then pos (b - suc a) else negsuc (a - b)

infix 60 ◌+ℤ◌
