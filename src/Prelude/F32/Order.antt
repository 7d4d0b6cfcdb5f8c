-- ===== src/Prelude/F32/Order.antt =====
-- The order of the floats that are numbers.
use focus_vision_pcvr.Prelude.{ℕ, ◌≡◌, true, false, arith}
use focus_vision_pcvr.Prelude.F32.{le, lt, is_nan, is_finite}

-- A number from `lo` to `hi`.
abbrev pub IsBetween : ℕ → ℕ → ℕ → Type 0
IsBetween lo hi x = (le lo x ≡ true) × (le x hi ≡ true)

pub le_trans : (x y z : ℕ) → le x y ≡ true → le y z ≡ true → le x z ≡ true
unfolding le lt is_nan
le_trans x y z h k = ground (arith, h, k)

pub lo_le_lo : (lo hi : ℕ) → le lo hi ≡ true → le lo lo ≡ true
unfolding le lt is_nan
lo_le_lo lo hi h = ground (arith, h)

pub hi_le_hi : (lo hi : ℕ) → le lo hi ≡ true → le hi hi ≡ true
unfolding le lt is_nan
hi_le_hi lo hi h = ground (arith, h)

pub lt_of_le : (lo hi : ℕ) → le lo hi ≡ true → lt hi lo ≡ false
unfolding le is_nan
lt_of_le lo hi h = ground (arith, h)

pub le_of_not_lt : (x y : ℕ) → is_nan x ≡ false → is_nan y ≡ false → lt y x ≡ false → le x y ≡ true
unfolding le
le_of_not_lt x y n m h = ground (arith, n, m, h)

pub lt_of_not_le : (x y : ℕ) → is_nan x ≡ false → is_nan y ≡ false → le x y ≡ false → lt y x ≡ true
unfolding le
lt_of_not_le x y n m h = ground (arith, n, m, h)

pub le-number : (x y : ℕ) → le x y ≡ true → (is_nan x ≡ false) × (is_nan y ≡ false)
unfolding le
le-number x y h = (ground (arith, h), ground (arith, h))

pub finite-number : (x : ℕ) → is_finite x ≡ true → is_nan x ≡ false
unfolding is_finite is_nan
finite-number x h = ground (arith, h)
