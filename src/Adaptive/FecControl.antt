-- ===== src/Adaptive/FecControl.antt =====
-- `AdaptiveFecController` of transport/fec.rs. Floats are their bit patterns; the sum and the
-- difference of two, and the test whether two differ by more than epsilon, are parameters. Instants
-- are microseconds.
pub mod Within
use focus_vision_pcvr.Prelude.{
  ℕ, ◌+◌, ◌-◌, ◌%◌, ◌^◌, Bool, true, false, not, ◌||◌, Option, none, some, ltb, if◌then◌else◌,
  bit_xor, ◌>>=◌,
}
use focus_vision_pcvr.Prelude.F32
use focus_vision_pcvr.Prelude.F64

-- The float operations that the controller uses.
pub record Arithmetic : Type 0 where
  pub add : ℕ → ℕ → ℕ
  pub sub : ℕ → ℕ → ℕ
  pub differs : ℕ → ℕ → Bool

pub record AdaptiveFecController : Type 0 where
  pub current_redundancy : ℕ
  pub min_redundancy : ℕ
  pub max_redundancy : ℕ
  pub max_change_per_step : ℕ
  pub boost_active : Bool
  pub last_adjustment : ℕ
  pub adjustment_interval : ℕ

abbrev pub one : ℕ
one = 0x3f80_0000

-- What `x.clamp(lo, hi)` returns, where the bounds are in order.
unfoldable pub limit : ℕ → ℕ → ℕ → ℕ
limit x lo hi =
    let raised : ℕ = if F32.lt x lo then lo else x in if F32.lt hi raised then hi else raised

-- `x.clamp(lo, hi)`, which panics unless the bounds are numbers in order.
unfoldable pub clamp : ℕ → ℕ → ℕ → Option ℕ
unfolding limit
clamp x lo hi = if F32.le lo hi then some (limit x lo hi) else none

-- 0.05
abbrev pub step : ℕ
step = 0x3d4c_cccd

-- The sign bit flipped.
abbrev pub negate : ℕ → ℕ
negate x = bit_xor x (2 ^ 31)

-- `none` is a panic.
unfoldable pub new : ℕ → ℕ → ℕ → ℕ → Option AdaptiveFecController
unfolding clamp
new now min_redundancy max_redundancy initial = do
  lo ← clamp min_redundancy 0 one
  hi ← clamp max_redundancy lo one
  current ← clamp initial lo hi
  some (record {
    current_redundancy = current;
    min_redundancy = lo;
    max_redundancy = hi;
    max_change_per_step = step;
    boost_active = false;
    last_adjustment = now;
    adjustment_interval = 1_000_000;
  })

-- The loss within 0 and 1; one that is not a finite number counts as 0.
unfoldable pub usable_loss : ℕ → ℕ
usable_loss loss =
    if not (ltb (F64.abs loss) 0x7ff0_0000_0000_0000)
    then 0
    else (if F64.lt loss 0
        then 0
        else (if F64.lt 0x3ff0_0000_0000_0000 loss then 0x3ff0_0000_0000_0000 else loss))

-- Below 1 %, below 3 %, below 5 %, and above.
unfoldable pub target_for : ℕ → ℕ
target_for loss =
    if F64.lt loss 0x3f84_7ae1_47ae_147b
    then 0x3d4c_cccd
    else (if F64.lt loss 0x3f9e_b851_eb85_1eb8
        then 0x3e19_999a
        else (if F64.lt loss 0x3fa9_9999_9999_999a then 0x3e80_0000 else 0x3ecc_cccd))

unfoldable pub activate_boost : AdaptiveFecController → AdaptiveFecController
activate_boost c = record c { boost_active = true }

unfoldable pub deactivate_boost : AdaptiveFecController → AdaptiveFecController
deactivate_boost c = record c { boost_active = false }

-- The larger of two floats, of which the second is a number.
abbrev pub larger : ℕ → ℕ → ℕ
larger x y = if F32.lt x y then y else (if F32.is_nan x then y else x)

unfoldable pub effective_redundancy : AdaptiveFecController → ℕ
effective_redundancy c =
    if c.boost_active then larger c.max_redundancy c.current_redundancy else c.current_redundancy

module _ (fl : Arithmetic) where
  -- One step towards the target, no larger than allowed, within the bounds. These are in order from the
  -- making of the controller, so that no clamp panics.
  unfoldable pub next_redundancy : AdaptiveFecController → ℕ → ℕ
  next_redundancy c loss =
      let target = limit (target_for (usable_loss loss)) c.min_redundancy c.max_redundancy in
      let diff = fl.sub target c.current_redundancy in
      let change = limit diff (negate c.max_change_per_step) c.max_change_per_step in
      limit (fl.add c.current_redundancy change) c.min_redundancy c.max_redundancy

  unfoldable pub adjust : ℕ → ℕ → AdaptiveFecController → AdaptiveFecController × Bool
  adjust now loss c =
      if ltb (now - c.last_adjustment) c.adjustment_interval
      then (c, false)
      else (let next = next_redundancy c loss in
          if fl.differs next c.current_redundancy
          then (record c { current_redundancy = next; last_adjustment = now }, true)
          else (c, false))
