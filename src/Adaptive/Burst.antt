-- ===== src/Adaptive/Burst.antt =====
-- `BurstDetector` of adaptive/burst_detector.rs. Instants are microseconds.
pub mod Classify
use focus_vision_pcvr.Prelude.{ℕ, ◌-◌, Bool, Option, none, some, ltb, if◌then◌else◌}
use focus_vision_pcvr.Prelude.F64.{ge}
use focus_vision_pcvr.Adaptive.Arbitration.{LossPattern, normal, burst, sustained, f0_05}

pub record BurstDetector : Type 0 where
  pub pattern : LossPattern
  pub burst_start : Option ℕ
  pub sustained_threshold : ℕ
  pub loss_rate_threshold : ℕ

unfoldable pub new : BurstDetector
new = record {
  pattern = normal;
  burst_start = none;
  sustained_threshold = 500_000;
  loss_rate_threshold = f0_05;
}

unfoldable pub lossy : ℕ → Option ℕ → BurstDetector → BurstDetector
lossy now none d = record d { burst_start = some now; pattern = burst }
lossy now (some start) d =
    if ltb d.sustained_threshold (now - start) then (record d { pattern = sustained }) else d

unfoldable pub clear : Option ℕ → BurstDetector → BurstDetector
clear none d = d
clear (some start) d = record d { burst_start = none; pattern = normal }

unfoldable pub record_loss : ℕ → ℕ → BurstDetector → BurstDetector
unfolding lossy clear
record_loss now loss_rate d =
    if ge loss_rate d.loss_rate_threshold then lossy now d.burst_start d else clear d.burst_start d
