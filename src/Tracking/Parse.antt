-- ===== src/Tracking/Parse.antt =====
-- `parse_head_pose` and `parse_controller` of tracking/receiver.rs, with the records of protocol.rs.
-- Floats are their bit patterns.
use focus_vision_pcvr.Prelude.{
  ℕ, ◌+◌, Option, none, some, List, length, get_or, ltb, leb, if◌then◌else◌,
}
use focus_vision_pcvr.Prelude.Words.{le_at}

pub record Vector : Type 0 where
  pub x : ℕ
  pub y : ℕ
  pub z : ℕ

pub record Quaternion : Type 0 where
  pub x : ℕ
  pub y : ℕ
  pub z : ℕ
  pub w : ℕ

pub record TrackingData : Type 0 where
  pub position : Vector
  pub orientation : Quaternion
  pub timestamp_ns : ℕ
  pub gaze_x : ℕ
  pub gaze_y : ℕ
  pub gaze_valid : ℕ

pub record ControllerState : Type 0 where
  pub controller_id : ℕ
  pub timestamp_ns : ℕ
  pub position : Vector
  pub orientation : Quaternion
  pub trigger : ℕ
  pub grip : ℕ
  pub thumbstick_x : ℕ
  pub thumbstick_y : ℕ
  pub button_flags : ℕ
  pub battery_level : ℕ

abbrev pub vector_at : ℕ → List ℕ → Vector
vector_at i bs = record { x = le_at 4 i bs; y = le_at 4 (i + 4) bs; z = le_at 4 (i + 8) bs }

abbrev pub quaternion_at : ℕ → List ℕ → Quaternion
quaternion_at i bs = record {
  x = le_at 4 i bs;
  y = le_at 4 (i + 4) bs;
  z = le_at 4 (i + 8) bs;
  w = le_at 4 (i + 12) bs;
}

-- 0.5
abbrev pub center : ℕ
center = 0x3f00_0000

-- The gaze is behind the pose; without it, the center, not valid.
unfoldable pub parse_head_pose : List ℕ → Option TrackingData
parse_head_pose bs =
    if ltb (length bs) 36
    then none
    else (let with_gaze = leb 45 (length bs) in
        some (record {
          position = vector_at 8 bs;
          orientation = quaternion_at 20 bs;
          timestamp_ns = le_at 8 0 bs;
          gaze_x = if with_gaze then le_at 4 36 bs else center;
          gaze_y = if with_gaze then le_at 4 40 bs else center;
          gaze_valid = if with_gaze then get_or bs 44 0 else 0;
        }))

-- Buttons and battery were added later: an older packet has none, and a full battery.
unfoldable pub parse_controller : List ℕ → Option ControllerState
parse_controller bs =
    if ltb (length bs) 53
    then none
    else some (record {
      controller_id = get_or bs 0 0;
      timestamp_ns = le_at 8 1 bs;
      position = vector_at 9 bs;
      orientation = quaternion_at 21 bs;
      trigger = le_at 4 37 bs;
      grip = le_at 4 41 bs;
      thumbstick_x = le_at 4 45 bs;
      thumbstick_y = le_at 4 49 bs;
      button_flags = if leb 57 (length bs) then le_at 4 53 bs else 0;
      battery_level = if leb 58 (length bs) then get_or bs 57 0 else 100;
    })
