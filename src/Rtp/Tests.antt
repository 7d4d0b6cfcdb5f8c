-- ===== src/Rtp/Tests.antt =====
-- The transport theorems at concrete inputs.
use focus_vision_pcvr.Prelude.{◌≡◌, refl, true, some, [], ◌∷◌, arith}
use focus_vision_pcvr.Rtp.Header.{FvpHeader, read_fvp_header}
use focus_vision_pcvr.Rtp.HeaderLaws.{packet, read-packet}
use focus_vision_pcvr.Rtp.Packetizer
use focus_vision_pcvr.Rtp.Packetizer.{packetize}
use focus_vision_pcvr.Rtp.Depacketizer
use focus_vision_pcvr.Rtp.Depacketizer.{feed_all}
use focus_vision_pcvr.Rtp.RoundTrip.{packetize_round_trip}

abbrev header : FvpHeader
header = record {
  frame_index = 70000;
  shard_index = 2;
  shard_count = 300;
  flags = 1;
  data_shard_count = 250;
}

read-packet_example : read_fvp_header (packet 97 true 8 90 7 header (5 ∷ [])) ≡ some header
read-packet_example = read-packet 97 true 8 90 7 header (5 ∷ []) (record {
  frame_index = omega arith;
  shard_index = omega arith;
  shard_count = omega arith;
  flags = omega arith;
  data_shard_count = omega arith;
})

packetize_round_trip_example :
    (feed_all Depacketizer.new (packetize (Packetizer.new 9) (1 ∷ 2 ∷ 3 ∷ []) 4 90 true).0).1
    ≡ record { frame_index = 4; is_keyframe = true; frame_data = 1 ∷ 2 ∷ 3 ∷ [] } ∷ []
unfolding Depacketizer.new
packetize_round_trip_example =
    packetize_round_trip (Packetizer.new 9) Depacketizer.new (1 ∷ 2 ∷ 3 ∷ []) 4 90 true
      (omega arith) (omega arith) (omega arith) refl
