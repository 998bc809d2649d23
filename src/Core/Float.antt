-- ===== src/Core/Float.antt =====
-- The float64 arithmetic of Go's runtime and the NUMERIC columns, as a parameter: a float64 is its
-- bit pattern, and nothing is assumed of the operations unless a theorem says so.
use laundry_platform.Base.{Option, Bool}
use laundry_platform.Base.Int.{ℤ}
use laundry_platform.Core.Tables.{Float64}

pub record FloatOps : Type 0 where
  -- `float64(n)`, `a * b`, `a / b` and `a < b`.
  pub of_int64 : ℤ → Float64
  pub mul : Float64 → Float64 → Float64
  pub div : Float64 → Float64 → Float64
  pub lt : Float64 → Float64 → Bool
  -- `int64(math.Round(x))`.
  pub round_int64 : Float64 → ℤ
  -- What a NUMERIC(10,3) or NUMERIC(5,2) column keeps of a value, `none` where it does not fit.
  pub numeric_10_3 : Float64 → Option Float64
  pub numeric_5_2 : Float64 → Option Float64
