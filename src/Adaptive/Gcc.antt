-- ===== src/Adaptive/Gcc.antt =====
-- `GccEstimator` of adaptive/gcc_estimator.rs. Floats are bit patterns and their arithmetic a parameter;
-- instants are microseconds.
pub mod Trend
use focus_vision_pcvr.Prelude.{
  ℕ, ◌+◌, ◌-◌, ◌%◌, ◌^◌, Bool, true, false, ◌&&◌, Option, none, some, is_some, List, [], ◌∷◌, ◌++◌,
  length, drop, ltb, leb, if◌then◌else◌,
}
use focus_vision_pcvr.Prelude.F64.{Arithmetic, one, lt, larger, abs}
use focus_vision_pcvr.Protocol.Feedback.{TransportFeedbackEntry}
use focus_vision_pcvr.Adaptive.Bandwidth.{f0_3}

pub data DelayTrend : Type 0 where
  normal : DelayTrend
  increasing : DelayTrend
  overuse : DelayTrend

pub record GccEstimator : Type 0 where
  pub delay_samples : List ℕ
  pub max_samples : ℕ
  pub filtered_gradient : ℕ
  pub overuse_threshold : ℕ
  pub trend : DelayTrend
  pub alpha : ℕ
  pub last_recv_delta_us : Option ℕ
  pub current_bitrate_bps : ℕ
  pub last_probe : ℕ
  pub probing : Bool

abbrev pub f6 : ℕ
f6 = 0x4018_0000_0000_0000

unfoldable pub new : ℕ → ℕ → GccEstimator
new now initial_bitrate_bps = record {
  delay_samples = [];
  max_samples = 60;
  filtered_gradient = 0;
  overuse_threshold = f6;
  trend = normal;
  alpha = f0_3;
  last_recv_delta_us = none;
  current_bitrate_bps = initial_bitrate_bps;
  last_probe = now;
  probing = false;
}

-- The oldest sample goes where there are too many.
unfoldable pub push_sample : ℕ → ℕ → List ℕ → List ℕ
push_sample max_samples x samples =
    let pushed = samples ++ (x ∷ []) in
    if ltb max_samples (length pushed) then drop 1 pushed else pushed

module _ (fl : Arithmetic) where
  -- The difference of the deltas, in milliseconds.
  unfoldable pub gradient_ms : TransportFeedbackEntry → TransportFeedbackEntry → ℕ
  gradient_ms first second =
      fl.div (fl.of_i32 ((second.recv_delta_us + 2 ^ 32 - first.recv_delta_us) % 2 ^ 32))
        0x408f_4000_0000_0000

  unfoldable pub take_gradient : ℕ → GccEstimator → GccEstimator
  unfolding push_sample
  take_gradient gradient g = record g {
    filtered_gradient =
        if is_some g.last_recv_delta_us
        then fl.add (fl.mul g.alpha gradient) (fl.mul (fl.sub one g.alpha) g.filtered_gradient)
        else gradient;
    delay_samples = push_sample g.max_samples gradient g.delay_samples;
  }

  -- The loop over the pairs of neighbours, and the last entry at its end.
  unfoldable pub windows :
      TransportFeedbackEntry → List TransportFeedbackEntry → GccEstimator → GccEstimator
  unfolding take_gradient gradient_ms
  windows first [] g = record g { last_recv_delta_us = some first.recv_delta_us }
  windows first (second ∷ entries) g =
      windows second entries (take_gradient (gradient_ms first second) g)

  -- `0.99 * threshold + 0.01 * |gradient|.max(6.0)`
  unfoldable pub adapt_threshold : GccEstimator → GccEstimator
  adapt_threshold g = record g {
    overuse_threshold =
        fl.add (fl.mul 0x3fef_ae14_7ae1_47ae g.overuse_threshold)
          (fl.mul 0x3f84_7ae1_47ae_147b (larger (abs g.filtered_gradient) f6));
  }

  unfoldable pub classify : ℕ → ℕ → DelayTrend
  classify gradient threshold =
      if lt threshold gradient
      then overuse
      else (if lt (fl.mul threshold 0x3fe0_0000_0000_0000) gradient then increasing else normal)

  unfoldable pub set_trend : GccEstimator → GccEstimator
  unfolding classify
  set_trend g = record g { trend = classify g.filtered_gradient g.overuse_threshold }

  unfoldable pub process_feedback : List TransportFeedbackEntry → GccEstimator → GccEstimator
  unfolding windows adapt_threshold set_trend
  process_feedback [] g = g
  process_feedback (first ∷ []) g = g
  process_feedback (first ∷ (second ∷ entries)) g =
      set_trend (adapt_threshold (windows first (second ∷ entries) g))

-- 0.85, 0.95, and 1.05 where the gradient is below -2.
abbrev multiplier_for : DelayTrend → ℕ → ℕ
multiplier_for overuse gradient = 0x3feb_3333_3333_3333
multiplier_for increasing gradient = 0x3fee_6666_6666_6666
multiplier_for normal gradient =
    if lt gradient 0xc000_0000_0000_0000 then 0x3ff0_cccc_cccc_cccd else one

unfoldable pub bitrate_multiplier : GccEstimator → ℕ
bitrate_multiplier g = multiplier_for g.trend g.filtered_gradient

abbrev is_normal : DelayTrend → Bool
is_normal normal = true
is_normal increasing = false
is_normal overuse = false

unfoldable pub should_probe : ℕ → GccEstimator → Bool
should_probe now g =
    is_normal g.trend
    && lt (abs g.filtered_gradient) 0x4000_0000_0000_0000
    && leb 30_000_000 (now - g.last_probe)

unfoldable pub start_probe : ℕ → GccEstimator → GccEstimator
start_probe now g = record g { probing = true; last_probe = now }

unfoldable pub end_probe : GccEstimator → GccEstimator × Bool
end_probe g = (record g { probing = false }, is_normal g.trend)

unfoldable pub set_current_bitrate : ℕ → GccEstimator → GccEstimator
set_current_bitrate bps g = record g { current_bitrate_bps = bps }
