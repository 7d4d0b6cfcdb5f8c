-- ===== src/Metrics/Tests.antt =====
-- The tracker's theorem at a concrete input.
use focus_vision_pcvr.Prelude.{◌≡◌, List, [], ◌∷◌}
use focus_vision_pcvr.Metrics.Latency.{FrameTimestamps, tracker, encoded}
use focus_vision_pcvr.Metrics.Latency.Recent.{record_all, recent, record_all-recent}

abbrev three_frames : List FrameTimestamps
three_frames = encoded 5_000 100 7 ∷ encoded 6_000 100 8 ∷ encoded 7_000 9_000 9 ∷ []

record_all-recent_example : (record_all three_frames (tracker 2)).history ≡ recent 2 three_frames
record_all-recent_example = record_all-recent 2 three_frames
