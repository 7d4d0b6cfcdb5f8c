-- ===== src/Adaptive/Controller.antt =====
-- `BitrateController` of adaptive/bitrate_controller.rs. Instants and durations are microseconds.
pub mod Bounds
use focus_vision_pcvr.Prelude.{
  ℕ, ◌+◌, ◌-◌, ◌*◌, ◌/◌, min, max, Bool, true, false, Option, none, some, ltb, ◌==◌, not,
  if◌then◌else◌,
}
use focus_vision_pcvr.Adaptive.Arbitration.{
  LossPattern, ArbitrationInputs, ArbDominant, no_change, ArbitrationOutcome, arbitrate,
  effective_max, f0_02,
}

abbrev pub min_bitrate_mbps : ℕ
min_bitrate_mbps = 10

abbrev pub max_bitrate_mbps : ℕ
max_bitrate_mbps = 200

pub record BitrateController : Type 0 where
  pub current_bitrate_bps : ℕ
  pub min_bitrate_bps : ℕ
  pub max_bitrate_bps : ℕ
  pub thermal_ceiling_bps : Option ℕ
  pub target_loss_rate : ℕ
  pub last_adjustment : ℕ
  pub hysteresis_duration : ℕ
  pub last_decision : ArbDominant

unfoldable pub setting_bps : ℕ → ℕ
setting_bps mbps = min (max mbps min_bitrate_mbps) max_bitrate_mbps * 1_000_000

unfoldable pub new : ℕ → ℕ → BitrateController
unfolding setting_bps
new now bitrate_mbps = record {
  current_bitrate_bps = setting_bps bitrate_mbps;
  min_bitrate_bps = min_bitrate_mbps * 1_000_000;
  max_bitrate_bps = setting_bps bitrate_mbps;
  thermal_ceiling_bps = none;
  target_loss_rate = f0_02;
  last_adjustment = now;
  hysteresis_duration = 10_000_000;
  last_decision = no_change;
}

unfoldable pub clamp_to_bounds : BitrateController → ℕ → ℕ
unfolding effective_max
clamp_to_bounds c candidate =
    max (min candidate (effective_max c.max_bitrate_bps c.thermal_ceiling_bps)) c.min_bitrate_bps

unfoldable pub set_setting_mbps : ℕ → ℕ → BitrateController → BitrateController
unfolding clamp_to_bounds setting_bps
set_setting_mbps now bitrate_mbps c =
    let raised : BitrateController = record c { max_bitrate_bps = setting_bps bitrate_mbps } in
    record raised {
      current_bitrate_bps = clamp_to_bounds raised (setting_bps bitrate_mbps);
      last_adjustment = now;
    }

unfoldable pub setting_mbps : BitrateController → ℕ
setting_mbps c = c.max_bitrate_bps / 1_000_000

-- What the estimators report at one call.
pub record Signals : Type 0 where
  pub has_data : Bool
  pub loss_rate : ℕ
  pub delay_gradient_ms : ℕ
  pub pattern : LossPattern

unfoldable pub inputs_of : ℕ → Signals → BitrateController → ArbitrationInputs
inputs_of now s c = record {
  current_bps = c.current_bitrate_bps;
  loss_rate = s.loss_rate;
  delay_gradient_ms = s.delay_gradient_ms;
  pattern = s.pattern;
  hysteresis_elapsed = ltb c.hysteresis_duration (now - c.last_adjustment);
  target_loss_rate = c.target_loss_rate;
  min_bps = c.min_bitrate_bps;
  hard_max_bps = c.max_bitrate_bps;
  thermal_ceiling_bps = c.thermal_ceiling_bps;
}

unfoldable pub take_outcome : ℕ → ArbitrationOutcome → BitrateController → BitrateController × Bool
take_outcome now o c =
    let decided : BitrateController = record c { last_decision = o.dominant } in
    if o.target_bps == c.current_bitrate_bps
    then (decided, false)
    else (record decided { current_bitrate_bps = o.target_bps; last_adjustment = now }, true)

unfoldable pub adjust : (ℕ → ℕ → ℕ) → ℕ → Signals → BitrateController → BitrateController × Bool
unfolding take_outcome inputs_of
adjust times now s c =
    if s.has_data then take_outcome now (arbitrate times (inputs_of now s c)) c else (c, false)

unfoldable pub set_thermal_ceiling_bps : ℕ → BitrateController → BitrateController
unfolding clamp_to_bounds
set_thermal_ceiling_bps ceiling c =
    let capped : BitrateController = record c { thermal_ceiling_bps = some ceiling } in
    record capped { current_bitrate_bps = clamp_to_bounds capped c.current_bitrate_bps }

unfoldable pub clear_thermal_ceiling : BitrateController → BitrateController
clear_thermal_ceiling c = record c { thermal_ceiling_bps = none }
