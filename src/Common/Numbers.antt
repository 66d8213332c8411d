-- ===== src/Common/Numbers.antt =====
-- The numbers of the language, as far as the code tells them apart: those that are not finite,
-- and the integers. `neg n` is -(n + 1).
use Prim.Native.Nat.{ℕ}
use mathlib.Core.Bool.{Bool, true, false}
use abracadabra.Common.Tests.{◌==◌}

pub data Number : Type 0 where
  nan infinity minus_infinity : Number
  neg nat : ℕ → Number

-- `Number.isFinite`
abbrev pub is_finite : Number → Bool
is_finite (nat n) = true
is_finite (neg n) = true
is_finite _ = false

-- `===` on numbers: `NaN` is not equal to itself.
abbrev pub strict_eq : Number → Number → Bool
strict_eq infinity infinity = true
strict_eq minus_infinity minus_infinity = true
strict_eq (neg a) (neg b) = a == b
strict_eq (nat a) (nat b) = a == b
strict_eq _ _ = false
