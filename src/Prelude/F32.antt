-- ===== src/Prelude/F32.antt =====
-- Single-precision floats as IEEE 754 bit patterns, numbers below 2 ^ 32: the tests that the code
-- makes on a float it has received, and no arithmetic.
pub mod Order
use focus_vision_pcvr.Prelude.{
  ℕ, ◌+◌, ◌/◌, ◌%◌, ◌^◌, Bool, not, ◌&&◌, ◌||◌, ltb, ◌==◌, if◌then◌else◌,
}

abbrev pub exponent : ℕ → ℕ
exponent x = x / 2 ^ 23 % 256

abbrev pub sign : ℕ → ℕ
sign x = x / 2 ^ 31

-- `x.abs()`, and the bits below the sign of any pattern: they order the floats of one sign.
abbrev pub abs : ℕ → ℕ
abs x = x % 2 ^ 31

unfoldable pub is_finite : ℕ → Bool
is_finite x = not (exponent x == 255)

unfoldable pub is_nan : ℕ → Bool
is_nan x = ltb (0x7f80_0000) (abs x)

-- `x < y`, false where either is not a number; the two zeros are equal.
unfoldable pub lt : ℕ → ℕ → Bool
unfolding is_nan
lt x y =
    not (is_nan x)
    && not (is_nan y)
    && (if sign x == 0
        then (sign y == 0 && ltb (abs x) (abs y))
        else (if sign y == 0 then ltb 0 (abs x + abs y) else ltb (abs y) (abs x)))

-- `x <= y`.
unfoldable pub le : ℕ → ℕ → Bool
unfolding is_nan lt
le x y = not (is_nan x) && not (is_nan y) && not (lt y x)

-- `x != y`.
unfoldable pub ne : ℕ → ℕ → Bool
unfolding is_nan lt
ne x y = is_nan x || is_nan y || lt x y || lt y x
