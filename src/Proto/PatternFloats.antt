-- ===== src/Proto/PatternFloats.antt =====
-- A concrete `Float32`, for tests: floats as their 32-bit patterns, compared as floats that are not
-- NaN, with placeholders for the arithmetic, which no law is about.
use mathlib.Core.HLevel.{Σ_prop_path}
use native.Mathlib.Bridge.{le_prop}
use chassis_host.Common.{ℕ, ◌+◌, ◌-◌, ◌%◌, ◌^◌, ◌<◌, ltb, if◌then◌else◌, arith}
use chassis_host.Common.Int.{pos}
use chassis_host.Proto.Float32.{Float32}

-- The order of the floats as an order of numbers; both zeros come to 2^31.
abbrev rank : ℕ → ℕ
rank n = if ltb n (2 ^ 31) then 2 ^ 31 + n else 2 ^ 32 - n

abbrev pub pattern_floats : Float32
pattern_floats = record {
  Float = (n : ℕ) × (n < 2 ^ 32);
  bits = λ x. x.0;
  of_bits = λ n. (n % 2 ^ 32, omega arith);
  of_int = λ z. (0, omega arith);
  divide = λ x y. x;
  times = λ x y. x;
  greater = λ x y. ltb (rank y.0) (rank x.0);
  less = λ x y. ltb (rank x.0) (rank y.0);
  lround = λ x. pos x.0;
  ten = (0x41200000, omega arith);
  hundred = (0x42c80000, omega arith);
  thousand = (0x447a0000, omega arith);
  rpm_top = (0x454ccb33, omega arith);
  rpm_bottom = (0xc54ccccd, omega arith);
  bits-lt = λ x. x.1;
  of_bits-bits = λ x. Σ_prop_path (λ n. le_prop) (omega (arith, x.1));
}
