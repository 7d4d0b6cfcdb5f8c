-- ===== src/Protocol/Tests.antt =====
-- The message theorems at concrete inputs.
use focus_vision_pcvr.Prelude.{
  ◌^◌, ◌<◌, ◌≡◌, true, none, some, List, [], ◌∷◌, ◌++◌, arith, if◌then◌else◌,
}
use focus_vision_pcvr.Protocol.Flags
use focus_vision_pcvr.Protocol.FlagsLaws.{fields-encode}
use focus_vision_pcvr.Protocol.FramePose
use focus_vision_pcvr.Protocol.FramePose.{Orientation, if_finite, kept, parse-encode}
use focus_vision_pcvr.Protocol.ViewConfig.{
  ViewConfig, EyeFov, encode_view_config, parse_view_config, parse-encode_view_config, plausible,
}
use focus_vision_pcvr.Protocol.Feedback.{
  TransportFeedbackEntry, encode_transport_feedback, parse_transport_feedback,
  parse-encode_transport_feedback,
}

fields-encode_example :
    (Flags.is_keyframe (Flags.encode true 19 4 1) ≡ true)
    × (Flags.slice_index (Flags.encode true 19 4 1) ≡ 3)
    × (Flags.slice_count (Flags.encode true 19 4 1) ≡ 4)
    × (Flags.stream_id (Flags.encode true 19 4 1) ≡ 1)
    × (Flags.encode true 19 4 1 < 2 ^ 16)
fields-encode_example = fields-encode true 19 4 1 (omega arith) (omega arith) (omega arith)

-- x is 1.0, w is not a number.
abbrev not_finite : Orientation
not_finite = record { x = 0x3f80_0000; y = 0; z = 0; w = 0x7fc0_0000 }

parse-encode_example :
    FramePose.parse (FramePose.encode (some not_finite) ++ (8 ∷ []))
    ≡ some (kept (some not_finite), 8 ∷ [])
parse-encode_example =
    parse-encode (some not_finite) (8 ∷ []) (omega arith, omega arith, omega arith, omega arith)

-- Half a radian to each side, and 64 mm.
abbrev eye : EyeFov
eye = record { left = 0xbf00_0000; right = 0x3f00_0000; up = 0x3f00_0000; down = 0xbf00_0000 }

abbrev view : ViewConfig
view = record { left_eye = eye; right_eye = eye; ipd_m = 0x3d83_126f }

parse-encode_view_config_example :
    parse_view_config (encode_view_config view ++ []) ≡ (if plausible view then some view else none)
parse-encode_view_config_example = parse-encode_view_config view [] (
  (omega arith, omega arith, omega arith, omega arith),
  (omega arith, omega arith, omega arith, omega arith),
  omega arith,
)

abbrev entries : List TransportFeedbackEntry
entries =
    record { sequence = 7; recv_delta_us = 4_294_967_295 }
    ∷ record { sequence = 8; recv_delta_us = 120 }
    ∷ []

parse-encode_transport_feedback_example :
    parse_transport_feedback (encode_transport_feedback entries ++ (1 ∷ [])) ≡ some entries
parse-encode_transport_feedback_example =
    parse-encode_transport_feedback entries (1 ∷ [])
      ((omega arith, omega arith), ((omega arith, omega arith), tt))
