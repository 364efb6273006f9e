-- ===== src/Float.antt =====
-- float64 values. A value is its 64-bit pattern, a number; the arithmetic of the processor is a
-- parameter, a record of functions on patterns.
use koto7_tuma.Prelude.{ℕ, ℤ, Text, Bool}

abbrev pub Float64 : Type 0
Float64 = ℕ

pub record FloatOps : Type 0 where
  pub lt : Float64 → Float64 → Bool
  pub add : Float64 → Float64 → Float64
  pub sub : Float64 → Float64 → Float64
  pub mul : Float64 → Float64 → Float64
  pub div : Float64 → Float64 → Float64
  pub abs : Float64 → Float64
  -- float64(n)
  pub of_int : ℤ → Float64
  -- int64(x), as the 64 bits of the result
  pub to_int : Float64 → ℕ
  -- math.Round
  pub round : Float64 → Float64
  -- strconv.FormatFloat(x, 'f', 0, 64) and strconv.FormatFloat(x, 'f', -1, 64)
  pub format_whole : Float64 → Text
  pub format_shortest : Float64 → Text
  -- the constant 0.001
  pub one_thousandth : Float64
