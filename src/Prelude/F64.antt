-- ===== src/Prelude/F64.antt =====
-- Double-precision floats as IEEE 754 bit patterns, numbers below 2 ^ 64: the comparisons that the
-- code makes. Arithmetic is a parameter.
use focus_vision_pcvr.Prelude.{ℕ, ◌+◌, ◌/◌, ◌%◌, ◌^◌, Bool, not, ◌&&◌, ltb, ◌==◌, if◌then◌else◌}

abbrev pub sign : ℕ → ℕ
sign x = x / 2 ^ 63

abbrev pub abs : ℕ → ℕ
abs x = x % 2 ^ 63

unfoldable pub is_nan : ℕ → Bool
is_nan x = ltb 0x7ff0_0000_0000_0000 (abs x)

-- `x < y`, false where either is not a number; the two zeros are equal.
unfoldable pub lt : ℕ → ℕ → Bool
unfolding is_nan
lt x y =
    not (is_nan x)
    && not (is_nan y)
    && (if sign x == 0
        then (sign y == 0 && ltb (abs x) (abs y))
        else (if sign y == 0 then ltb 0 (abs x + abs y) else ltb (abs y) (abs x)))

-- `x >= y`.
unfoldable pub ge : ℕ → ℕ → Bool
unfolding is_nan lt
ge x y = not (is_nan x) && not (is_nan y) && not (lt x y)

-- The arithmetic that the code does on doubles: a parameter of what uses it.
pub record Arithmetic : Type 0 where
  -- An unsigned integer as a double.
  pub of_nat : ℕ → ℕ
  -- A signed 32-bit integer, given as its pattern, as a double.
  pub of_i32 : ℕ → ℕ
  pub add : ℕ → ℕ → ℕ
  pub sub : ℕ → ℕ → ℕ
  pub mul : ℕ → ℕ → ℕ
  pub div : ℕ → ℕ → ℕ

abbrev pub one : ℕ
one = 0x3ff0_0000_0000_0000

-- `x.max(y)`, of which `y` is a number.
abbrev pub larger : ℕ → ℕ → ℕ
larger x y = if lt x y then y else (if is_nan x then y else x)
