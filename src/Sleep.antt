-- ===== src/Sleep.antt =====
-- `SleepDetector` of rust/streaming-engine/src/sleep_mode.rs. Floats are their bit patterns; the distance
-- between two positions is a parameter.
pub mod Transitions
mod Tests
use focus_vision_pcvr.Prelude.{
  ℕ, ◌+◌, ◌*◌, ◌%◌, ◌^◌, Bool, true, false, not, ◌&&◌, Option, none, some, leb, if◌then◌else◌,
}
use focus_vision_pcvr.Prelude.F32.{lt}

pub record Position : Type 0 where
  pub x : ℕ
  pub y : ℕ
  pub z : ℕ

pub record SleepDetector : Type 0 where
  pub enabled : Bool
  pub motion_threshold : ℕ
  pub timeout_seconds : ℕ
  pub sleep_bitrate_mbps : ℕ
  pub prev_position : Option Position
  pub idle_frames : ℕ
  pub is_sleeping : Bool

pub data SleepTransition : Type 0 where
  sleep : SleepTransition
  wake : SleepTransition

unfoldable pub new : Bool → ℕ → ℕ → ℕ → SleepDetector
new enabled motion_threshold timeout_seconds sleep_bitrate_mbps = record {
  enabled = enabled;
  motion_threshold = motion_threshold;
  timeout_seconds = timeout_seconds;
  sleep_bitrate_mbps = sleep_bitrate_mbps;
  prev_position = none;
  idle_frames = 0;
  is_sleeping = false;
}

-- The headset moved.
unfoldable pub on_motion : SleepDetector → SleepDetector × Option SleepTransition
on_motion d =
    if d.is_sleeping
    then (record d { idle_frames = 0; is_sleeping = false }, some wake)
    else (record d { idle_frames = 0 }, none)

-- One more frame without motion, at 90 frames a second.
unfoldable pub on_idle : SleepDetector → SleepDetector × Option SleepTransition
on_idle d =
    let idle_frames = (d.idle_frames + 1) % 2 ^ 64 in
    if not d.is_sleeping && leb (90 * d.timeout_seconds) idle_frames
    then (record d { idle_frames = idle_frames; is_sleeping = true }, some sleep)
    else (record d { idle_frames = idle_frames }, none)

module _ (distance : Position → Position → ℕ) where
  abbrev pub motion_from : Option Position → Position → ℕ
  motion_from none pos = 0
  motion_from (some prev) pos = distance prev pos

  unfoldable pub update : Position → SleepDetector → SleepDetector × Option SleepTransition
  unfolding on_motion on_idle
  update pos d =
      if not d.enabled
      then (d, none)
      else (let seen : SleepDetector = record d { prev_position = some pos } in
          if lt d.motion_threshold (motion_from d.prev_position pos)
          then on_motion seen
          else on_idle seen)

unfoldable pub force_wake : SleepDetector → SleepDetector × Option SleepTransition
force_wake d =
    if d.is_sleeping
    then (record d { idle_frames = 0; is_sleeping = false }, some wake)
    else (record d { idle_frames = 0 }, none)
