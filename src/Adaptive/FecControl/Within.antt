-- ===== src/Adaptive/FecControl/Within.antt =====
-- The redundancy stays between its bounds.
use focus_vision_pcvr.Prelude.{
  ℕ, ◌-◌, ◌≡◌, refl, sym, ap, subst, Bool, false, true, if_either, some, List, [], ◌∷◌, arith, ltb,
  Bool-cases, inl, inr, >>=-eq-some,
}
use focus_vision_pcvr.Prelude.F32
use focus_vision_pcvr.Prelude.F32.Order.{
  IsBetween, le_trans, lo_le_lo, hi_le_hi, lt_of_le, le-number,
}
use focus_vision_pcvr.Prelude.F64
use focus_vision_pcvr.Adaptive.FecControl.{
  Arithmetic, AdaptiveFecController, one, step, limit, clamp, negate, new, activate_boost,
  deactivate_boost, target_for, usable_loss, next_redundancy, adjust,
}

limit-IsBetween :
    (x lo hi : ℕ) → F32.is_nan x ≡ false → F32.le lo hi ≡ true → IsBetween lo hi (limit x lo hi)
unfolding limit F32.le
limit-IsBetween x lo hi number h =
    let lo_self = lo_le_lo lo hi h in
    let hi_self = hi_le_hi lo hi h in
    elim (Bool-cases (F32.lt x lo)) [
      | inl low ↦ rw (low, lt_of_le lo hi h) (lo_self, h)
      | inr above ↦ elim (Bool-cases (F32.lt hi x)) [
        | inl high ↦ rw (above, high) (h, hi_self)
        | inr below ↦
            rw (above, below) (ground (arith, number, above, h), ground (arith, number, below, h))
      ]
    ]

pub record IsWithin (c : AdaptiveFecController) : Type 0 where
  pub bounds : F32.le c.min_redundancy c.max_redundancy ≡ true
  pub floor : F32.le 0 c.min_redundancy ≡ true
  pub roof : F32.le c.max_redundancy one ≡ true
  pub steps : c.max_change_per_step ≡ step
  pub between : IsBetween c.min_redundancy c.max_redundancy c.current_redundancy

-- The float operations give numbers: a difference of numbers from 0 to 1, and the sum of such a number
-- and a step.
pub record IsNumeric (fl : Arithmetic) : Type 0 where
  pub difference :
      (x y : ℕ) → IsBetween 0 one x → IsBetween 0 one y → F32.is_nan (fl.sub x y) ≡ false
  pub sum :
      (x y : ℕ)
      → IsBetween 0 one x
      → IsBetween (negate step) step y
      → F32.is_nan (fl.add x y) ≡ false

clamp-limit : (x lo hi y : ℕ) → clamp x lo hi ≡ some y → (F32.le lo hi ≡ true) × (y ≡ limit x lo hi)
unfolding clamp
clamp-limit x lo hi y h = elim (Bool-cases (F32.le lo hi)) [
  | inl e ↦ (e, ground (arith, e, h))
  | inr e ↦ absurd (ground (arith, e, h))
]

-- What is no number stays none.
limit_nan : (x lo hi : ℕ) → F32.is_nan x ≡ true → limit x lo hi ≡ x
unfolding limit F32.lt
limit_nan x lo hi h = ground (arith, h)

-- A bound that the next clamp accepts was made of a number.
from_number : (x lo hi : ℕ) → F32.is_nan (limit x lo hi) ≡ false → F32.is_nan x ≡ false
from_number x lo hi h = elim (Bool-cases (F32.is_nan x)) [
  | inl bad ↦ absurd (ground (arith, bad, h, ap F32.is_nan (limit_nan x lo hi bad)))
  | inr number ↦ number
]

zero_to_one : F32.le 0 one ≡ true
unfolding F32.le F32.lt F32.is_nan
zero_to_one = refl

step_range : F32.le (negate step) step ≡ true
unfolding F32.le F32.lt F32.is_nan
step_range = refl

made-IsWithin :
    (now min max initial lo hi current : ℕ)
    → F32.is_nan initial ≡ false
    → clamp min 0 one ≡ some lo
    → clamp max lo one ≡ some hi
    → clamp initial lo hi ≡ some current
    → IsWithin (record {
      current_redundancy = current;
      min_redundancy = lo;
      max_redundancy = hi;
      max_change_per_step = step;
      boost_active = false;
      last_adjustment = now;
      adjustment_interval = 1_000_000;
    })
made-IsWithin now min max initial lo hi current number l h c =
    let low = clamp-limit min 0 one lo l in
    let high = clamp-limit max lo one hi h in
    let mid = clamp-limit initial lo hi current c in
    let lo_number = subst (λ t. F32.is_nan t ≡ false) low.1 (le-number lo one high.0).0 in
    let hi_number = subst (λ t. F32.is_nan t ≡ false) high.1 (le-number lo hi mid.0).1 in
    let lo_in = limit-IsBetween min 0 one (from_number min 0 one lo_number) zero_to_one in
    let hi_in = limit-IsBetween max lo one (from_number max lo one hi_number) high.0 in
    record {
      bounds = mid.0;
      floor = subst (λ t. F32.le 0 t ≡ true) (sym low.1) lo_in.0;
      roof = subst (λ t. F32.le t one ≡ true) (sym high.1) hi_in.1;
      steps = refl;
      between =
          subst (λ t. IsBetween lo hi t) (sym mid.1) (limit-IsBetween initial lo hi number mid.0);
    }

pub new-IsWithin :
    (now lo hi initial : ℕ) (c : AdaptiveFecController)
    → F32.is_nan initial ≡ false
    → new now lo hi initial ≡ some c
    → IsWithin c
unfolding new
new-IsWithin now min max initial c number h =
    let low = >>=-eq-some (clamp min 0 one) _ c h in
    let high = >>=-eq-some (clamp max low.0 one) _ c low.2 in
    let mid = >>=-eq-some (clamp initial low.0 high.0) _ c high.2 in
    subst IsWithin (ground (arith, mid.2))
      (made-IsWithin now min max initial low.0 high.0 mid.0 number low.1 high.1 mid.1)

target-number : (loss : ℕ) → F32.is_nan (target_for loss) ≡ false
unfolding target_for F32.is_nan
target-number loss =
    if_either (λ t. F32.is_nan t ≡ false) (F64.lt loss 0x3f84_7ae1_47ae_147b) 0x3d4c_cccd _
      (λ e. refl)
      (λ e.
        if_either (λ t. F32.is_nan t ≡ false) (F64.lt loss 0x3f9e_b851_eb85_1eb8) 0x3e19_999a _
          (λ d. refl)
          (λ d.
            if_either (λ t. F32.is_nan t ≡ false) (F64.lt loss 0x3fa9_9999_9999_999a) 0x3e80_0000
              0x3ecc_cccd (λ f. refl) (λ f. refl)))

next-IsBetween :
    (fl : Arithmetic) (c : AdaptiveFecController) (loss : ℕ)
    → IsNumeric fl
    → IsWithin c
    → IsBetween c.min_redundancy c.max_redundancy (next_redundancy fl c loss)
unfolding next_redundancy
next-IsBetween fl c loss numeric h =
    let wide : (x : ℕ) → IsBetween c.min_redundancy c.max_redundancy x → IsBetween 0 one x = λ x b.
      (le_trans 0 c.min_redundancy x h.floor b.0, le_trans x c.max_redundancy one b.1 h.roof) in
    let target =
      limit-IsBetween (target_for (usable_loss loss)) c.min_redundancy c.max_redundancy
        (target-number (usable_loss loss)) h.bounds in
    let diff = numeric.difference _ c.current_redundancy (wide _ target) (wide _ h.between) in
    let change = limit-IsBetween _ (negate step) step diff step_range in
    rw (h.steps) (
      limit-IsBetween _ c.min_redundancy c.max_redundancy
        (numeric.sum c.current_redundancy _ (wide _ h.between) change) h.bounds)

pub adjust-IsWithin :
    (fl : Arithmetic) (now loss : ℕ) (c : AdaptiveFecController)
    → IsNumeric fl
    → IsWithin c
    → IsWithin (adjust fl now loss c).0
unfolding adjust
adjust-IsWithin fl now loss c numeric h =
    elim (Bool-cases (ltb (now - c.last_adjustment) c.adjustment_interval)) [
      | inl early ↦ rw early h
      | inr due ↦ elim (Bool-cases (fl.differs (next_redundancy fl c loss) c.current_redundancy)) [
        | inl moved ↦
            rw (due, moved)
              (record {
                bounds = h.bounds;
                floor = h.floor;
                roof = h.roof;
                steps = h.steps;
                between = next-IsBetween fl c loss numeric h;
              })
        | inr kept ↦ rw (due, kept) h
      ]
    ]

-- The boost is none of it.
pub boosting-IsWithin :
    (b : Bool) (c : AdaptiveFecController) → IsWithin c → IsWithin (record c { boost_active = b })
boosting-IsWithin b c h = record {
  bounds = h.bounds;
  floor = h.floor;
  roof = h.roof;
  steps = h.steps;
  between = h.between;
}

-- What the engine asks of the controller.
pub data FecRequest : Type 0 where
  evaluate : ℕ → ℕ → FecRequest
  boost : FecRequest
  unboost : FecRequest

unfoldable pub serve : Arithmetic → FecRequest → AdaptiveFecController → AdaptiveFecController
serve fl (evaluate now loss) c = (adjust fl now loss c).0
serve fl boost c = activate_boost c
serve fl unboost c = deactivate_boost c

unfoldable pub serve_all :
    Arithmetic → List FecRequest → AdaptiveFecController → AdaptiveFecController
serve_all fl [] c = c
serve_all fl (r ∷ requests) c = serve_all fl requests (serve fl r c)

serve-IsWithin :
    (fl : Arithmetic) (r : FecRequest) (c : AdaptiveFecController)
    → IsNumeric fl
    → IsWithin c
    → IsWithin (serve fl r c)
unfolding serve activate_boost deactivate_boost
serve-IsWithin fl (evaluate now loss) c numeric h = adjust-IsWithin fl now loss c numeric h
serve-IsWithin fl boost c numeric h = boosting-IsWithin true c h
serve-IsWithin fl unboost c numeric h = boosting-IsWithin false c h

serve_all_from :
    (fl : Arithmetic) (requests : List FecRequest) (c : AdaptiveFecController)
    → IsNumeric fl
    → IsWithin c
    → IsWithin (serve_all fl requests c)
unfolding serve_all
serve_all_from fl [] c numeric h = h
serve_all_from fl (r ∷ requests) c numeric h =
    serve_all_from fl requests (serve fl r c) numeric (serve-IsWithin fl r c numeric h)

-- From a new controller that could be made, with an initial redundancy that is a number, whatever losses
-- are reported and however the redundancy is boosted: the minimum, the redundancy and the maximum are
-- numbers in this order, from 0 to 1. The float operations are assumed to give numbers where they add
-- or subtract numbers from 0 to 1, or a step to one.
pub serve_all-IsWithin :
    (fl : Arithmetic) (requests : List FecRequest) (now lo hi initial : ℕ)
    (c : AdaptiveFecController)
    → IsNumeric fl
    → F32.is_nan initial ≡ false
    → new now lo hi initial ≡ some c
    → IsWithin (serve_all fl requests c)
serve_all-IsWithin fl requests now lo hi initial c numeric number made =
    serve_all_from fl requests c numeric (new-IsWithin now lo hi initial c number made)
