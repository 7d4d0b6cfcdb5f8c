-- ===== src/Engine/Adaptive.antt =====
-- `AdaptiveState` of engine.rs: the bitrate and redundancy of one session, moved by the events of the
-- control connection and by a tick each second. Floats are bit patterns; instants are microseconds.
pub mod Frame
pub mod InStep
pub mod Runs
use focus_vision_pcvr.Prelude.{
  ℕ, ◌+◌, ◌-◌, ◌*◌, ◌%◌, ◌^◌, min, Bool, true, false, Option, none, some, List, [], ◌∷◌, ltb, ◌==◌,
  if◌then◌else◌, ◌>>=◌,
}
use focus_vision_pcvr.Prelude.F64
use focus_vision_pcvr.Prelude.F32
use focus_vision_pcvr.Fec.Codec.{FloatOps}
use focus_vision_pcvr.Pipeline.Sliced.{FrameFecEncoder, set_redundancy}
use focus_vision_pcvr.Adaptive.Arbitration.{LossPattern, normal, burst, sustained}
use focus_vision_pcvr.Adaptive.Bandwidth
use focus_vision_pcvr.Adaptive.Gcc
use focus_vision_pcvr.Adaptive.Burst
use focus_vision_pcvr.Adaptive.Controller
use focus_vision_pcvr.Adaptive.FecControl
use focus_vision_pcvr.Sleep
use focus_vision_pcvr.Engine.Control.{
  HmdStats, ControlEvent, heartbeat, transport_feedback, bitrate_setting,
}

pub record AdaptiveState : Type 0 where
  pub bw_estimator : Bandwidth.BandwidthEstimator
  pub bitrate_ctrl : Controller.BitrateController
  pub burst_detector : Burst.BurstDetector
  pub gcc_estimator : Gcc.GccEstimator
  pub gcc_enabled : Bool
  pub adaptive_fec : Option FecControl.AdaptiveFecController
  pub sleep_detector : Sleep.SleepDetector
  pub pending_stats : Option HmdStats
  pub last_stats : Option HmdStats

-- The settings that a session starts from.
pub record Settings : Type 0 where
  pub adaptive_fec_enabled : Bool
  pub fec_redundancy_min : ℕ
  pub fec_redundancy_max : ℕ
  pub fec_redundancy : ℕ
  pub bitrate_mbps : ℕ
  pub gcc : Bool
  pub sleep_enabled : Bool
  pub motion_threshold : ℕ
  pub timeout_seconds : ℕ
  pub sleep_bitrate_mbps : ℕ

unfoldable pub with_fec : ℕ → Settings → Option FecControl.AdaptiveFecController → AdaptiveState
with_fec now s adaptive_fec = record {
  bw_estimator = Bandwidth.new now;
  bitrate_ctrl = Controller.new now s.bitrate_mbps;
  burst_detector = Burst.new;
  gcc_estimator = Gcc.new now (s.bitrate_mbps * 1_000_000);
  gcc_enabled = s.gcc;
  adaptive_fec = adaptive_fec;
  sleep_detector =
      Sleep.new s.sleep_enabled s.motion_threshold s.timeout_seconds s.sleep_bitrate_mbps;
  pending_stats = none;
  last_stats = none;
}

-- The redundancy controller, if the settings ask for one; `none` is the panic of making it.
unfoldable pub fec_of : ℕ → Settings → Option (Option FecControl.AdaptiveFecController)
fec_of now s =
    if s.adaptive_fec_enabled
    then FecControl.new now s.fec_redundancy_min s.fec_redundancy_max s.fec_redundancy
      >>= (λ c. some (some c))
    else some none

unfoldable pub new : ℕ → Settings → Option AdaptiveState
unfolding fec_of with_fec
new now s = fec_of now s >>= (λ adaptive_fec. some (with_fec now s adaptive_fec))

-- The state with what it drives: the encoder's bitrate, as it was last told, and the frames' redundancy.
pub record Driving : Type 0 where
  pub adaptive : AdaptiveState
  pub encoder_bps : ℕ
  pub fec_encoder : FrameFecEncoder

unfoldable pub saturating_add : ℕ → ℕ → ℕ
saturating_add a b = min (a + b) (2 ^ 32 - 1)

-- The counts of heartbeats that no tick has used yet are added up.
unfoldable pub add_stats : Option HmdStats → HmdStats → HmdStats
unfolding saturating_add
add_stats none stats = stats
add_stats (some p) stats = record stats {
  packets_received = saturating_add p.packets_received stats.packets_received;
  packets_lost = saturating_add p.packets_lost stats.packets_lost;
}

-- `notify_bitrate_change` of the controller's bitrate.
unfoldable pub notify : Driving → Driving
notify d = record d { encoder_bps = d.adaptive.bitrate_ctrl.current_bitrate_bps % 2 ^ 32 }

-- The bitrate controller, moved, and the encoder told where it has changed.
unfoldable pub moved : Controller.BitrateController × Bool → Driving → Driving
unfolding notify
moved (ctrl, changed) d =
    let d' : Driving = record d { adaptive = record d.adaptive { bitrate_ctrl = ctrl } } in
    if changed then notify d' else d'

abbrev is_burst : LossPattern → Bool
is_burst normal = false
is_burst burst = true
is_burst sustained = false

-- The float operations: on doubles, on the controller's floats, on the encoder's, and the product of
-- a bitrate and a multiplier.
pub record Floats : Type 0 where
  pub double : F64.Arithmetic
  pub single : FecControl.Arithmetic
  pub codec : FloatOps
  pub times : ℕ → ℕ → ℕ

module _ (fl : Floats) where
  unfoldable pub on_event : ℕ → ControlEvent → Driving → Driving
  unfolding notify add_stats
  on_event now (heartbeat stats) d = record d {
    adaptive = record d.adaptive {
      pending_stats = some (add_stats d.adaptive.pending_stats stats);
      last_stats = some stats;
    };
  }
  on_event now (transport_feedback entries) d = record d {
    adaptive = record d.adaptive {
      gcc_estimator =
          if d.adaptive.gcc_enabled
          then Gcc.process_feedback fl.double entries d.adaptive.gcc_estimator
          else d.adaptive.gcc_estimator;
    };
  }
  on_event now (bitrate_setting mbps) d = notify (record d {
    adaptive = record d.adaptive {
      bitrate_ctrl = Controller.set_setting_mbps now mbps d.adaptive.bitrate_ctrl;
    };
  })

  unfoldable pub signals : Bandwidth.BandwidthEstimator → ℕ → LossPattern → Controller.Signals
  signals bw gradient pattern = record {
    has_data = bw.has_data;
    loss_rate = bw.loss_rate_ewma;
    delay_gradient_ms = gradient;
    pattern = pattern;
  }

  -- The redundancy controller, and the encoder set to it.
  unfoldable pub set_fec : FecControl.AdaptiveFecController → Driving → Driving
  set_fec afec d = record d {
    adaptive = record d.adaptive { adaptive_fec = some afec };
    fec_encoder = set_redundancy fl.codec d.fec_encoder (FecControl.effective_redundancy afec);
  }

  -- The loss-based adjustment at the end of a tick.
  unfoldable pub adjust_fec : ℕ → Option FecControl.AdaptiveFecController → Driving → Driving
  unfolding set_fec
  adjust_fec now none d = d
  adjust_fec now (some afec) d =
      let adjusted = FecControl.adjust fl.single now d.adaptive.bw_estimator.loss_rate_ewma afec in
      if adjusted.1
      then set_fec adjusted.0 d
      else record d { adaptive = record d.adaptive { adaptive_fec = some adjusted.0 } }

  -- A boost that is on, but is recommended no more, ends.
  unfoldable pub end_boost : Option FecControl.AdaptiveFecController → Driving → Driving
  unfolding set_fec
  end_boost none d = d
  end_boost (some afec) d =
      if F32.ne (FecControl.effective_redundancy afec) afec.current_redundancy
      then set_fec (FecControl.deactivate_boost afec) d
      else d

  -- In a burst the redundancy is boosted, and not adjusted by the loss.
  unfoldable pub boost_or_adjust : ℕ → Option FecControl.AdaptiveFecController → Driving → Driving
  unfolding set_fec adjust_fec
  boost_or_adjust now none d = adjust_fec now none d
  boost_or_adjust now (some afec) d = set_fec (FecControl.activate_boost afec) d

  unfoldable pub respond_to_burst : ℕ → Driving → Driving
  unfolding boost_or_adjust end_boost adjust_fec
  respond_to_burst now d =
      if is_burst d.adaptive.burst_detector.pattern
      then boost_or_adjust now d.adaptive.adaptive_fec d
      else (let d' = end_boost d.adaptive.adaptive_fec d in
          adjust_fec now d'.adaptive.adaptive_fec d')

  -- The loss of this interval alone.
  unfoldable pub interval_loss : HmdStats → ℕ
  interval_loss stats =
      let total = stats.packets_received + stats.packets_lost in
      if total == 0
      then 0
      else fl.double.div (fl.double.of_nat stats.packets_lost) (fl.double.of_nat total)

  unfoldable pub tick_gcc : ℕ → HmdStats → Driving → Driving
  unfolding signals moved interval_loss respond_to_burst
  tick_gcc now stats d =
      let a = d.adaptive in
      let detector = Burst.record_loss now (interval_loss stats) a.burst_detector in
      let seen : Driving = record d { adaptive = record a { burst_detector = detector } } in
      respond_to_burst now (
        moved
          (Controller.adjust fl.times now
            (signals a.bw_estimator a.gcc_estimator.filtered_gradient detector.pattern)
            a.bitrate_ctrl)
          seen)

  -- With congestion control by loss alone the delay and the bursts count as none.
  unfoldable pub tick_loss : ℕ → Driving → Driving
  unfolding signals moved adjust_fec
  tick_loss now d =
      let a = d.adaptive in
      let d' =
        moved (Controller.adjust fl.times now (signals a.bw_estimator 0 normal) a.bitrate_ctrl) d in
      adjust_fec now d'.adaptive.adaptive_fec d'

  unfoldable pub tick_stats : ℕ → HmdStats → Driving → Driving
  unfolding tick_gcc tick_loss
  tick_stats now stats d =
      let bw =
        Bandwidth.update fl.double now stats.packets_received stats.packets_lost 0
          d.adaptive.bw_estimator in
      let d' : Driving = record d {
        adaptive = record d.adaptive { bw_estimator = bw; pending_stats = none };
      } in
      if d.adaptive.gcc_enabled then tick_gcc now stats d' else tick_loss now d'

  unfoldable pub tick_pending : ℕ → Option HmdStats → Driving → Driving
  unfolding tick_stats
  tick_pending now none d = d
  tick_pending now (some stats) d = tick_stats now stats d

  unfoldable pub tick : ℕ → Driving → Driving
  unfolding tick_pending
  tick now d = tick_pending now d.adaptive.pending_stats d
