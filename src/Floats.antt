-- ===== src/Floats.antt =====
-- Float arithmetic, on the bit patterns of `Value`. What the hardware computes is a parameter.
use sensor_edge.Prelude.{ℕ, ℤ}

pub record Floats : Type 0 where
  pub to_int : ℕ → ℤ  -- int(v) of a float64
  pub of_int : ℤ → ℕ  -- float64(v) of an integer
  pub of_float32 : ℕ → ℕ  -- float64(v) of a float32
  pub add : ℕ → ℕ → ℕ
  pub div : ℕ → ℕ → ℕ
  pub mul : ℕ → ℕ → ℕ
  pub round : ℕ → ℕ  -- math.Round
