-- ===== src/Adaptive/Tests.antt =====
-- The bitrate control's theorems at concrete inputs.
use focus_vision_pcvr.Prelude.{
  ◌==◌, not, ℕ, ◌+◌, ◌/◌, ◌≡◌, true, refl, false, some, none, List, [], ◌∷◌, arith, if◌then◌else◌,
}
use focus_vision_pcvr.Prelude.F64.{lt, ge}
use focus_vision_pcvr.Adaptive.Arbitration.{
  ArbitrationInputs, normal, sustained, arbitrate, f1_0, f0_01, f0_02, f0_05,
}
use focus_vision_pcvr.Adaptive.Controller
use focus_vision_pcvr.Adaptive.Controller.{Signals}
use focus_vision_pcvr.Adaptive.Controller.Bounds.{
  IsBounded, serve_all, serve_all-IsBounded, evaluate, hot, cool, setting,
}
use focus_vision_pcvr.Adaptive.Rises.{IsShrinking, arbitrate-rises}
use focus_vision_pcvr.Adaptive.FecControl
use focus_vision_pcvr.Adaptive.FecControl.{Arithmetic, AdaptiveFecController}
use focus_vision_pcvr.Adaptive.FecControl.Within
use focus_vision_pcvr.Adaptive.FecControl.Within.{IsWithin, IsNumeric, boost, serve_all-IsWithin}
use focus_vision_pcvr.Prelude.F32
use focus_vision_pcvr.Prelude.F32.Order.{le-number}
use focus_vision_pcvr.Adaptive.Burst.Classify.{Sample, record_all, classify, record_all-classify}

-- A product that is right for the multipliers above one, to a sixteenth, and rounds all others down to
-- a half.
abbrev product : ℕ → ℕ → ℕ
product n m = if lt f1_0 m then n + n / 16 else n / 2

product-IsShrinking : IsShrinking product
product-IsShrinking n m fits small = rw small (omega arith)

abbrev quiet : ArbitrationInputs
quiet = record {
  current_bps = 40_000_000;
  loss_rate = 0;
  delay_gradient_ms = 0;
  pattern = normal;
  hysteresis_elapsed = true;
  target_loss_rate = f0_02;
  min_bps = 10_000_000;
  hard_max_bps = 80_000_000;
  thermal_ceiling_bps = none;
}

arbitrate-rises_example : (true ≡ true) × (lt 0 f0_01 ≡ true)
unfolding arbitrate lt ge
arbitrate-rises_example =
    arbitrate-rises product quiet product-IsShrinking (omega arith) (omega arith) (omega arith)

serve_all-IsBounded_example : IsBounded (
    serve_all product
      (hot 5_000_000
        ∷ evaluate 7
            (record { has_data = true; loss_rate = 0; delay_gradient_ms = 0; pattern = sustained })
        ∷ cool
        ∷ setting 9 500
        ∷ [])
      (Controller.new 3 80))
serve_all-IsBounded_example =
    serve_all-IsBounded product
      (hot 5_000_000
        ∷ evaluate 7
            (record { has_data = true; loss_rate = 0; delay_gradient_ms = 0; pattern = sustained })
        ∷ cool
        ∷ setting 9 500
        ∷ [])
      3 80

-- The latest first: two lossy samples, 700 ms apart, after a good one.
abbrev samples : List Sample
samples =
    record { at_time = 1_700_000; loss_rate = f1_0 }
    ∷ record { at_time = 1_000_000; loss_rate = f1_0 }
    ∷ record { at_time = 500_000; loss_rate = 0 }
    ∷ []

record_all-classify_example : (record_all samples).pattern ≡ sustained
unfolding classify ge
record_all-classify_example = record_all-classify samples (omega arith, (omega arith, tt))

-- A step is lost in rounding.
abbrev coarse : Arithmetic
coarse = record { add = λ x y. x; sub = λ x y. x; differs = λ x y. not (x == y) }

coarse-IsNumeric : IsNumeric coarse
coarse-IsNumeric = record {
  difference = λ x y h k. (le-number 0 x h.0).1;
  sum = λ x y h k. (le-number 0 x h.0).1;
}

abbrev controller : AdaptiveFecController
controller = record {
  current_redundancy = 0x3e4c_cccd;
  min_redundancy = 0x3d4c_cccd;
  max_redundancy = 0x3ecc_cccd;
  max_change_per_step = 0x3d4c_cccd;
  boost_active = false;
  last_adjustment = 0;
  adjustment_interval = 1_000_000;
}

controller_made : FecControl.new 0 0x3d4c_cccd 0x3ecc_cccd 0x3e4c_cccd ≡ some controller
unfolding FecControl.new F32.le F32.lt F32.is_nan
controller_made = refl

initial_number : F32.is_nan 0x3e4c_cccd ≡ false
unfolding F32.is_nan
initial_number = refl

serve_all-IsWithin_example :
    IsWithin (Within.serve_all coarse (Within.evaluate 2_000_000 f0_05 ∷ boost ∷ []) controller)
serve_all-IsWithin_example =
    serve_all-IsWithin coarse (Within.evaluate 2_000_000 f0_05 ∷ boost ∷ []) 0 0x3d4c_cccd
      0x3ecc_cccd 0x3e4c_cccd controller coarse-IsNumeric initial_number controller_made
