-- ===== src/Base/Float.antt =====
-- Go's float64, as a parameter: the type, the operations that the program uses, and its numerals.
-- The laws of IEEE 754 that a theorem needs are hypotheses of that theorem.
use Prim.Native.Nat.{ℕ}
use mathlib.Core.Bool.{Bool}

pub record Float : Type 1 where
  pub F : Type 0
  -- float64(n), which is exact below 2^53
  pub of_nat : ℕ → F
  pub add : F → F → F
  pub sub : F → F → F
  pub div : F → F → F
  pub lt : F → F → Bool
  pub le : F → F → Bool
  pub eq : F → F → Bool
