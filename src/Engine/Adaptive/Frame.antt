-- ===== src/Engine/Adaptive/Frame.antt =====
-- What a frame does to the bitrate, behind sending it: the frame branch of `run_session` in engine.rs. A
-- frame ticks the adaptive state or not; the thermal governor gives a multiplier or none; the sleep
-- check sees the headset's position, if there is one.
use focus_vision_pcvr.Prelude.{ℕ, ◌*◌, Bool, Option, none, some, if◌then◌else◌}
use focus_vision_pcvr.Sleep.{Position, SleepDetector}
use focus_vision_pcvr.Adaptive.Controller.{setting_mbps, set_thermal_ceiling_bps}
use focus_vision_pcvr.Engine.Frames.{SleepNotice, check_sleep_mode}
use focus_vision_pcvr.Engine.Adaptive.{Driving, Floats, tick}

-- The encoder is not told of the ceiling.
unfoldable pub cap : (ℕ → ℕ → ℕ) → Option ℕ → Driving → Driving
cap times none d = d
cap times (some multiplier) d = record d {
  adaptive = record d.adaptive {
    bitrate_ctrl =
        set_thermal_ceiling_bps
          (times (setting_mbps d.adaptive.bitrate_ctrl * 1_000_000) multiplier)
          d.adaptive.bitrate_ctrl;
  };
}

-- The encoder is told what the notice says.
abbrev pub noticed : SleepDetector × Option SleepNotice → Driving → Driving
noticed (detector, none) d = record d { adaptive = record d.adaptive { sleep_detector = detector } }
noticed (detector, some notice) d = record d {
  adaptive = record d.adaptive { sleep_detector = detector };
  encoder_bps = notice.bitrate_bps;
}

module _ (fl : Floats) (distance : Position → Position → ℕ) where
  unfoldable pub check_sleep : Option Position → Driving → Driving
  unfolding check_sleep_mode setting_mbps
  check_sleep head d =
      noticed
        (check_sleep_mode distance (setting_mbps d.adaptive.bitrate_ctrl) head
          d.adaptive.sleep_detector)
        d

  unfoldable pub on_frame : ℕ → Bool → Option ℕ → Option Position → Driving → Driving
  unfolding check_sleep cap tick
  on_frame now due multiplier head d =
      let ticked = tick fl now d in
      check_sleep head (cap fl.times multiplier (if due then ticked else d))
