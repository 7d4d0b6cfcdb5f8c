-- ===== src/Pipeline/DecodePackets.antt =====
-- `decode_packets_to_frame` of pipeline.rs, for a caller that knows the counts.
pub mod Restores
use focus_vision_pcvr.Prelude.{
  ℕ, Bool, ◌||◌, Option, none, some, List, [], ◌∷◌, length, take, drop, set, replicate, concat,
  Result, ok, err, ltb, ◌==◌, if◌then◌else◌,
}
use focus_vision_pcvr.Rtp.Header.{FvpHeader, read_fvp_header, packet_header_len, max_frame_shards}
use focus_vision_pcvr.Rtp.Packetizer.{RtpPacket}
use focus_vision_pcvr.Fec.Codec.{Shard, ReedSolomon}
use focus_vision_pcvr.Fec.Encoder.{FecError, decode}

pub data PacketsError : Type 0 where
  invalid_shard_counts : PacketsError
  decode_failed : FecError → PacketsError

-- A packet without a header, or with an index beyond the shards, is passed over; a later packet of an
-- index takes the earlier one's place.
abbrev pub place_shard :
    ℕ → RtpPacket → Option FvpHeader → List (Option Shard) → List (Option Shard)
place_shard total packet none shards = shards
place_shard total packet (some h) shards =
    if ltb h.shard_index total
    then set shards h.shard_index (some (drop packet_header_len packet))
    else shards

unfoldable pub place_shards : ℕ → List RtpPacket → List (Option Shard) → List (Option Shard)
place_shards total [] shards = shards
place_shards total (packet ∷ packets) shards =
    place_shards total packets (place_shard total packet (read_fvp_header packet) shards)

abbrev pub truncated : ℕ → Result FecError (List Shard) → Result PacketsError (List ℕ)
truncated frame_len (ok data_shards) = ok (take frame_len (concat data_shards))
truncated frame_len (err e) = err (decode_failed e)

module _ (rs : ReedSolomon) where
  unfoldable pub decode_packets_to_frame : List RtpPacket → ℕ → ℕ → ℕ → Result PacketsError (List ℕ)
  unfolding place_shards decode
  decode_packets_to_frame packets data_count total frame_len =
      if (total == 0) || ltb max_frame_shards total || (data_count == 0) || ltb total data_count
      then err invalid_shard_counts
      else truncated frame_len
          (decode rs (place_shards total packets (replicate total none)) data_count)
