-- ===== src/Adaptive/Bandwidth.antt =====
-- `BandwidthEstimator` of adaptive/bandwidth_estimator.rs. Instants are microseconds.
use focus_vision_pcvr.Prelude.{ℕ, ◌+◌, ◌%◌, ◌^◌, Bool, true, false, ltb, if◌then◌else◌}
use focus_vision_pcvr.Prelude.F64.{Arithmetic, one}

pub record BandwidthEstimator : Type 0 where
  pub loss_rate_ewma : ℕ
  pub rtt_ms_ewma : ℕ
  pub alpha : ℕ
  pub last_update : ℕ
  pub has_data : Bool

abbrev pub f0_3 : ℕ
f0_3 = 0x3fd3_3333_3333_3333

unfoldable pub new : ℕ → BandwidthEstimator
new now = record {
  loss_rate_ewma = 0;
  rtt_ms_ewma = 0x4024_0000_0000_0000;
  alpha = f0_3;
  last_update = now;
  has_data = false;
}

module _ (fl : Arithmetic) where
  -- `alpha * x + (1.0 - alpha) * old`
  unfoldable pub ewma : ℕ → ℕ → ℕ → ℕ
  ewma alpha x old = fl.add (fl.mul alpha x) (fl.mul (fl.sub one alpha) old)

  -- The total is a 32-bit sum.
  unfoldable pub loss_of : ℕ → ℕ → ℕ
  loss_of packets_received packets_lost =
      let total = (packets_received + packets_lost) % 2 ^ 32 in
      if ltb 0 total then fl.div (fl.of_nat packets_lost) (fl.of_nat total) else 0

  unfoldable pub update : ℕ → ℕ → ℕ → ℕ → BandwidthEstimator → BandwidthEstimator
  unfolding ewma loss_of
  update now packets_received packets_lost rtt_ms e =
      let loss = loss_of packets_received packets_lost in
      if e.has_data
      then record e {
        loss_rate_ewma = ewma e.alpha loss e.loss_rate_ewma;
        rtt_ms_ewma = ewma e.alpha rtt_ms e.rtt_ms_ewma;
        last_update = now;
      }
      else record e {
        loss_rate_ewma = loss;
        rtt_ms_ewma = rtt_ms;
        has_data = true;
        last_update = now;
      }
