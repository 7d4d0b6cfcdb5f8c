-- ===== src/Rtp/Depacketizer.antt =====
-- `RtpDepacketizer` of rtp.rs.
use focus_vision_pcvr.Prelude.{
  ℕ, Bool, false, ◌&&◌, ◌||◌, Option, none, some, List, [], ◌∷◌, ◌++◌, drop, set, replicate, concat,
  all_some, count_some, present, get_or, ◌==◌, if◌then◌else◌,
}
use focus_vision_pcvr.Rtp.Header.{
  FvpHeader, read_fvp_header, is_valid, is_keyframe, marker_bit, packet_header_len,
}
use focus_vision_pcvr.Rtp.Packetizer.{RtpPacket}

pub record ReassembledFrame : Type 0 where
  pub frame_index : ℕ
  pub is_keyframe : Bool
  pub frame_data : List ℕ

pub record RtpDepacketizer : Type 0 where
  pub current_frame_index : Option ℕ
  pub shards : List (Option (List ℕ))
  pub expected_count : ℕ

unfoldable pub new : RtpDepacketizer
new = record { current_frame_index = none; shards = []; expected_count = 0 }

abbrev pub is_current : Option ℕ → ℕ → Bool
is_current none i = false
is_current (some j) i = j == i

-- A packet of another frame than the current one starts a new collection.
unfoldable pub begin_frame : RtpDepacketizer → FvpHeader → RtpDepacketizer
begin_frame d h = if is_current d.current_frame_index h.frame_index then d else (record {
  current_frame_index = some h.frame_index;
  shards = replicate h.shard_count none;
  expected_count = h.shard_count;
})

-- `if shard_index < self.shards.len()`: a write past the end changes nothing.
unfoldable pub store : RtpDepacketizer → ℕ → List ℕ → RtpDepacketizer
store d i payload = record d { shards = set d.shards i (some payload) }

unfoldable pub finish :
    RtpDepacketizer → Bool → FvpHeader → RtpDepacketizer × Option ReassembledFrame
finish d marker h =
    if (marker || all_some d.shards) && (count_some d.shards == d.expected_count)
    then (
      record d { current_frame_index = none },
      some (record {
        frame_index = h.frame_index;
        is_keyframe = is_keyframe h;
        frame_data = concat (present d.shards);
      }),
    )
    else (d, none)

abbrev with_header :
    RtpDepacketizer → RtpPacket → Option FvpHeader → RtpDepacketizer × Option ReassembledFrame
with_header d packet none = (d, none)
with_header d packet (some h) =
    if is_valid h
    then finish (store (begin_frame d h) h.shard_index (drop packet_header_len packet))
        (marker_bit (get_or packet 1 0)) h
    else (d, none)

unfoldable pub feed : RtpDepacketizer → RtpPacket → RtpDepacketizer × Option ReassembledFrame
unfolding begin_frame store finish
feed d packet = with_header d packet (read_fvp_header packet)

-- The frames that a sequence of packets gives.
unfoldable pub feed_all : RtpDepacketizer → List RtpPacket → RtpDepacketizer × List ReassembledFrame
feed_all d [] = (d, [])
feed_all d (packet ∷ packets) =
    let (d', out) = feed d packet in
    let (d'', outs) = feed_all d' packets in (d'', present (out ∷ []) ++ outs)
