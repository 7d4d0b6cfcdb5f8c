-- ===== src/Tracking/Receiver.antt =====
-- `TrackingReceiver` of tracking/receiver.rs: one round of the loop, for a datagram that has arrived.
-- `to_canonical` of an address is the standard library's and a parameter, and so is the type of
-- addresses with its equality. The gaze that the encoder was last told is part of the state.
use focus_vision_pcvr.Prelude.{
  ℕ, ◌+◌, ◌%◌, ◌^◌, Bool, false, Option, none, some, List, [], ◌∷◌, set, ◌==◌, ltb, if◌then◌else◌,
}
use focus_vision_pcvr.Tracking.Parse.{
  TrackingData, ControllerState, parse_head_pose, parse_controller,
}

-- A controller's state and when it came, in microseconds.
abbrev pub Slot : Type 0
Slot = Option (ControllerState × ℕ)

pub record Latest : Type 0 where
  pub head : Option TrackingData
  pub controllers : List Slot
  pub gaze : Option (ℕ × ℕ)

unfoldable pub store_head : Option TrackingData → Latest → Latest
store_head none l = l
store_head (some pose) l = record l {
  head = some pose;
  gaze = if pose.gaze_valid == 0 then l.gaze else some (pose.gaze_x, pose.gaze_y);
}

-- A controller that is neither 0 nor 1 is ignored.
unfoldable pub store_controller : ℕ → Option ControllerState → Latest → Latest
store_controller now none l = l
store_controller now (some state) l =
    if ltb state.controller_id 2
    then (record l { controllers = set l.controllers state.controller_id (some (state, now)) })
    else l

unfoldable pub take_packet : ℕ → List ℕ → Latest → Latest
unfolding store_head store_controller
take_packet now [] l = l
take_packet now (packet_type ∷ payload) l =
    if packet_type == 0x01
    then store_head (parse_head_pose payload) l
    else (if packet_type == 0x02 then store_controller now (parse_controller payload) l else l)

module _ {Addr : Type 0} (same : Addr → Addr → Bool) (to_canonical : Addr → Addr) where
  unfoldable pub is_paired_hmd : Option Addr → Addr → Bool
  is_paired_hmd none src = false
  is_paired_hmd (some ip) src = same (to_canonical ip) (to_canonical src)

  -- The latest inputs and the number of packets dropped, after one datagram.
  unfoldable pub receive : Option Addr → ℕ → Addr → List ℕ → Latest × ℕ → Latest × ℕ
  unfolding take_packet
  receive session now peer datagram (l, rejected) =
      if is_paired_hmd session peer
      then (take_packet now datagram l, rejected)
      else (l, (rejected + 1) % 2 ^ 64)
