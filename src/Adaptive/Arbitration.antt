-- ===== src/Adaptive/Arbitration.antt =====
-- `arbitrate` and the clamp behind it, as adaptive/bitrate_controller.rs has them. Floats are their
-- bit patterns; the product of a bitrate with a multiplier, rounded down to an integer, is a
-- parameter.
use focus_vision_pcvr.Prelude.{
  ℕ, min, max, Bool, ◌&&◌, Option, none, some, ltb, ◌==◌, if◌then◌else◌,
}
use focus_vision_pcvr.Prelude.F64.{lt, ge}

pub data LossPattern : Type 0 where
  normal : LossPattern
  burst : LossPattern
  sustained : LossPattern

pub record ArbitrationInputs : Type 0 where
  pub current_bps : ℕ
  pub loss_rate : ℕ
  pub delay_gradient_ms : ℕ
  pub pattern : LossPattern
  pub hysteresis_elapsed : Bool
  pub target_loss_rate : ℕ
  pub min_bps : ℕ
  pub hard_max_bps : ℕ
  pub thermal_ceiling_bps : Option ℕ

pub data ArbDominant : Type 0 where
  no_change : ArbDominant
  sustained_loss : ArbDominant
  loss : ArbDominant
  delay : ArbDominant
  thermal : ArbDominant
  increase : ArbDominant
  floor : ArbDominant

pub record ArbitrationOutcome : Type 0 where
  pub target_bps : ℕ
  pub dominant : ArbDominant

-- The multipliers and thresholds of the code.
abbrev pub f0_80 : ℕ
f0_80 = 0x3fe9_9999_9999_999a

abbrev pub f0_90 : ℕ
f0_90 = 0x3fec_cccc_cccc_cccd

abbrev pub f0_95 : ℕ
f0_95 = 0x3fee_6666_6666_6666

abbrev pub f1_0 : ℕ
f1_0 = 0x3ff0_0000_0000_0000

abbrev pub f1_05 : ℕ
f1_05 = 0x3ff0_cccc_cccc_cccd

abbrev pub f2_0 : ℕ
f2_0 = 0x4000_0000_0000_0000

abbrev pub f0_05 : ℕ
f0_05 = 0x3fa9_9999_9999_999a

abbrev pub f0_01 : ℕ
f0_01 = 0x3f84_7ae1_47ae_147b

abbrev pub f0_02 : ℕ
f0_02 = 0x3f94_7ae1_47ae_147b

unfoldable pub effective_max : ℕ → Option ℕ → ℕ
effective_max hard_max none = hard_max
effective_max hard_max (some t) = min hard_max t

unfoldable pub clamp_with_thermal : ℕ → ℕ → ℕ → Option ℕ → ℕ
unfolding effective_max
clamp_with_thermal candidate lowest hard_max ceiling =
    max (min candidate (effective_max hard_max ceiling)) lowest

unfoldable pub decide_clamp_dominant : ℕ → ℕ → Option ℕ → ArbDominant → ArbDominant
decide_clamp_dominant candidate final_target none network =
    if ltb candidate final_target then floor else network
decide_clamp_dominant candidate final_target (some t) network =
    if ltb candidate final_target
    then floor
    else (if (final_target == t) && ltb t candidate then thermal else network)

-- A multiplier and the signal that asks for it.
abbrev pub Choice : Type 0
Choice = ℕ × ArbDominant

abbrev pub or_lower : ℕ → ArbDominant → Choice → Choice
or_lower m signal c = if lt m c.0 then (m, signal) else c

unfoldable pub choose_for : LossPattern → ArbitrationInputs → Choice
choose_for sustained inputs = (f0_80, sustained_loss)
choose_for burst inputs = (f1_0, no_change)
choose_for normal inputs =
    let delayed =
      if lt f2_0 inputs.delay_gradient_ms
      then or_lower f0_90 delay (f1_0, no_change)
      else (f1_0, no_change) in
    if lt f0_05 inputs.loss_rate
    then or_lower f0_80 loss delayed
    else (if lt inputs.target_loss_rate inputs.loss_rate
        then or_lower f0_95 loss delayed
        else delayed)

unfoldable pub or_increase : ArbitrationInputs → Choice → Choice
or_increase inputs c =
    if ge c.0 f1_0 && inputs.hysteresis_elapsed && lt inputs.loss_rate f0_01
    then (f1_05, increase)
    else c

module _ (times : ℕ → ℕ → ℕ) where
  -- The candidate after a choice, clamped.
  unfoldable pub settle_on : ArbitrationInputs → ℕ → ArbDominant → ArbitrationOutcome
  unfolding clamp_with_thermal decide_clamp_dominant
  settle_on inputs candidate network =
      let target =
        clamp_with_thermal candidate inputs.min_bps inputs.hard_max_bps
          inputs.thermal_ceiling_bps in
      record {
        target_bps = target;
        dominant = decide_clamp_dominant candidate target inputs.thermal_ceiling_bps network;
      }

  unfoldable pub arbitrate_choice : ArbitrationInputs → Choice → ArbitrationOutcome
  unfolding settle_on
  arbitrate_choice inputs c = settle_on inputs (times inputs.current_bps c.0) c.1

  unfoldable pub arbitrate_for : LossPattern → ArbitrationInputs → ArbitrationOutcome
  unfolding settle_on arbitrate_choice choose_for or_increase
  arbitrate_for burst inputs = settle_on inputs inputs.current_bps no_change
  arbitrate_for sustained inputs =
      arbitrate_choice inputs (or_increase inputs (choose_for sustained inputs))
  arbitrate_for normal inputs =
      arbitrate_choice inputs (or_increase inputs (choose_for normal inputs))

  unfoldable pub arbitrate : ArbitrationInputs → ArbitrationOutcome
  unfolding arbitrate_for
  arbitrate inputs = arbitrate_for inputs.pattern inputs
