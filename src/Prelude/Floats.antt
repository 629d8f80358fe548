-- ===== src/Prelude/Floats.antt =====
-- Go's `float64`, which the language has no counterpart of: the type and the operations that the
-- source uses are a parameter of the definitions that use them.
use kaana.Prelude.{ℕ, Bool}
use kaana.Prelude.Int.{ℤ}

pub record Floats : Type 1 where
  pub Float : Type 0
  -- The literal n / d.
  pub literal : ℕ → ℕ → Float
  pub add : Float → Float → Float
  pub sub : Float → Float → Float
  pub mul : Float → Float → Float
  pub div : Float → Float → Float
  pub less : Float → Float → Bool
  pub less_equal : Float → Float → Bool
  -- The conversions int(x) and float64(n).
  pub truncate : Float → ℤ
  pub from_int : ℤ → Float
