-- ===== src/Base/Int.antt =====
-- Integers over the native numbers, with the tests that the code makes on them.
use Prim.Native.Nat.{ℕ, min}
use mathlib.Core.Bool.{Bool, false}
use prism_serve.Base.Tests.{leb}

-- `negsuc n` is -(n + 1).
pub data ℤ : Type 0 where
  pos : ℕ → ℤ
  negsuc : ℕ → ℤ

-- `max(0.0, min(1.0, r))`, where `unit` stands for 1.0.
abbrev pub clamp_unit : ℕ → ℤ → ℤ
clamp_unit unit (pos n) = pos (min n unit)
clamp_unit unit (negsuc n) = pos 0

-- `r >= w`
abbrev pub at_least : ℤ → ℕ → Bool
at_least (pos n) w = leb w n
at_least (negsuc n) w = false
