-- ===== src/Base/Floats.antt =====
-- What the program does with `float64` values.
use mathlib.Core.Bool.{Bool}
use solana_exporter.Base.Integers.{ℤ}

pub record Float64 (F : Type 0) : Type 0 where
  pub of_int : ℤ → F
  pub div : F → F → F
  pub add : F → F → F
  pub max : F → F → F
  pub is_negative : F → Bool
