-- ===== src/Config/Floats.antt =====
-- What holds of settings that have been validated: the floats.
use focus_vision_pcvr.Prelude.{
  ℕ, ◌≡◌, ◌⊎◌, inl, inr, refl, true, false, not, ◌||◌, Option, none, some, arith, Bool-cases,
  if_either,
}
use focus_vision_pcvr.Prelude.F32.{le, lt, is_nan, is_finite}
use focus_vision_pcvr.Prelude.F32.Order.{
  IsBetween, le_trans, lo_le_lo, hi_le_hi, le_of_not_lt, lt_of_not_le, le-number, finite-number,
}
use focus_vision_pcvr.Config.{f0_35, f1}
use focus_vision_pcvr.Config.Check.{
  Field, mid_radius, Checked, replace_if, FecBounds, validate_f32_range, validate_above_zero,
  check_fec_min, check_fec_max, clamp, with_error, check_fec_initial, with_bounds, check_fec,
}

pub f32_range-IsBetween :
    (lo hi default : ℕ) (field : Field) (value : ℕ)
    → IsBetween lo hi default
    → IsBetween lo hi (validate_f32_range lo hi default field value).0
unfolding validate_f32_range
f32_range-IsBetween lo hi default field value h =
    let low = (le-number lo default h.0).0 in
    let high = (le-number default hi h.1).1 in
    if_either {A = Checked ℕ} (λ q. IsBetween lo hi q.0)
      (not (is_finite value) || lt value lo || lt hi value) _ _ (λ e. h)
      (λ e.
        let number = finite-number value (ground (arith, e)) in
        (
          le_of_not_lt lo value low number (ground (arith, e)),
          le_of_not_lt value hi number high (ground (arith, e)),
        ))

-- A number above zero and at most `hi`.
abbrev pub IsPositive : ℕ → ℕ → Type 0
IsPositive hi x = (lt 0 x ≡ true) × (le x hi ≡ true)

zero_number : is_nan 0 ≡ false
unfolding is_nan
zero_number = refl

pub above_zero-IsPositive :
    (hi default : ℕ) (field : Field) (value : ℕ)
    → IsPositive hi default
    → IsPositive hi (validate_above_zero hi default field value).0
unfolding validate_above_zero
above_zero-IsPositive hi default field value h =
    let high = (le-number default hi h.1).1 in
    if_either {A = Checked ℕ} (λ q. IsPositive hi q.0) (le value 0 || lt hi value || is_nan value) _
      _ (λ e. h)
      (λ e.
        let number : is_nan value ≡ false = ground (arith, e) in
        (
          lt_of_not_le value 0 number zero_number (ground (arith, e)),
          le_of_not_lt value hi number high (ground (arith, e)),
        ))

-- The redundancies: the bounds are numbers in order, and the initial value is between them or no number.
pub record IsFec (b : FecBounds) : Type 0 where
  pub floor : le 0 b.low ≡ true
  pub ordered : le b.low b.high ≡ true
  pub roof : le b.high f1 ≡ true
  pub between : (is_nan b.initial ≡ true) ⊎ IsBetween b.low b.high b.initial

f1_number : is_nan f1 ≡ false
unfolding is_nan
f1_number = refl

min-above : (low : ℕ) → le 0 (check_fec_min low).0 ≡ true
unfolding check_fec_min le lt is_nan
min-above low =
    if_either {A = Checked ℕ} (λ q. le 0 q.0 ≡ true) (lt low 0 || lt f1 low || is_nan low) _ _
      (λ e. refl) (λ e. le_of_not_lt 0 low zero_number (ground (arith, e)) (ground (arith, e)))

max-below : (low high : ℕ) → le (check_fec_max low high).0 f1 ≡ true
unfolding check_fec_max le lt is_nan
max-below low high =
    if_either {A = Checked ℕ} (λ q. le q.0 f1 ≡ true) (lt high low || lt f1 high || is_nan high) _ _
      (λ e. refl) (λ e. le_of_not_lt high f1 (ground (arith, e)) f1_number (ground (arith, e)))

abbrev AllBetween : ℕ → ℕ → Option (Checked ℕ) → Type 0
AllBetween low high none = Unit
AllBetween low high (some (x, errors)) =
    (le low high ≡ true) × ((is_nan x ≡ true) ⊎ IsBetween low high x)

clamp-AllBetween : (low high x : ℕ) → AllBetween low high (with_error (clamp x low high))
unfolding clamp
clamp-AllBetween low high x = elim (Bool-cases (le low high)) [
  | inr bad ↦ rw bad tt
  | inl good ↦
      let ends = le-number low high good in
      rw good (
        good,
        if_either (λ y. (is_nan y ≡ true) ⊎ IsBetween low high y) (lt x low) low _
            (λ e. inr (lo_le_lo low high good, good))
            (λ above.
              if_either (λ y. (is_nan y ≡ true) ⊎ IsBetween low high y) (lt high x) high x
                (λ e. inr (good, hi_le_hi low high good))
                (λ below. elim (Bool-cases (is_nan x)) [
                  | inl bad ↦ inl bad
                  | inr number ↦ inr (
                    le_of_not_lt low x ends.0 number above,
                    le_of_not_lt x high number ends.1 below,
                  )
                ])),
      )
]

initial-AllBetween :
    (low high initial : ℕ)
    → is_nan low ≡ false
    → is_nan high ≡ false
    → AllBetween low high (check_fec_initial low high initial)
unfolding check_fec_initial
initial-AllBetween low high initial n m =
    if_either (AllBetween low high) (is_nan initial || lt initial low || lt high initial) _ _
      (λ e. clamp-AllBetween low high initial)
      (λ e.
        let number : is_nan initial ≡ false = ground (arith, e) in
        let above = le_of_not_lt low initial n number (ground (arith, e)) in
        let below = le_of_not_lt initial high number m (ground (arith, e)) in
        (le_trans low initial high above below, inr (above, below)))

abbrev pub AllFec : Option (Checked FecBounds) → Type 0
AllFec none = Unit
AllFec (some (b, errors)) = IsFec b

bounds-AllFec :
    (low high : Checked ℕ) (o : Option (Checked ℕ))
    → le 0 low.0 ≡ true
    → le high.0 f1 ≡ true
    → AllBetween low.0 high.0 o
    → AllFec (with_bounds low high o)
bounds-AllFec low high none floor roof h = tt
bounds-AllFec low high (some (x, errors)) floor roof h = record {
  floor = floor;
  ordered = h.0;
  roof = roof;
  between = h.1;
}

-- The bounds need not be in order before, but where this does not panic they are.
pub check_fec-AllFec : (b : FecBounds) → AllFec (check_fec b)
unfolding check_fec
check_fec-AllFec b =
    let low = check_fec_min b.low in
    let high = check_fec_max low.0 b.high in
    let floor = min-above b.low in
    let roof = max-below low.0 b.high in
    bounds-AllFec low high _ floor roof (
      initial-AllBetween low.0 high.0 b.initial (le-number 0 low.0 floor).1
        (le-number high.0 f1 roof).0)

-- The radius of the middle is above the fovea's, or it is the default.
abbrev pub IsMiddle : ℕ → ℕ → Type 0
IsMiddle fovea mid = (mid ≡ f0_35) ⊎ ((lt fovea mid ≡ true) × (le mid f1 ≡ true))

pub mid-IsMiddle :
    (fovea mid : ℕ)
    → is_nan fovea ≡ false
    → IsMiddle fovea (replace_if (le mid fovea || lt f1 mid || is_nan mid) f0_35 mid_radius mid).0
mid-IsMiddle fovea mid n =
    if_either {A = Checked ℕ} (λ q. IsMiddle fovea q.0) (le mid fovea || lt f1 mid || is_nan mid) _
      _ (λ e. inl refl)
      (λ e.
        let number : is_nan mid ≡ false = ground (arith, e) in
        inr (
          lt_of_not_le mid fovea number n (ground (arith, e)),
          le_of_not_lt mid f1 number f1_number (ground (arith, e)),
        ))
