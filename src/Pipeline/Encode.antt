-- ===== src/Pipeline/Encode.antt =====
-- The sending half of pipeline.rs: shards, packets, slices and `FrameFecEncoder`.
use focus_vision_pcvr.Prelude.{
  ℕ, ◌+◌, ◌-◌, ◌%◌, ◌^◌, Bool, List, [], ◌∷◌, ◌++◌, map, length, replicate, Result, ok, err, ltb,
  ◌==◌, if◌then◌else◌,
}
use focus_vision_pcvr.Prelude.Chunks.{chunks}
use focus_vision_pcvr.Protocol.Flags
use focus_vision_pcvr.Rtp.Header.{
  write_rtp_header, write_fvp_header, rtp_pt_h265, fec_shard_size, max_frame_shards,
}
use focus_vision_pcvr.Rtp.Packetizer.{RtpPacket, RtpPacketizer, take_buf, next_sequence}
use focus_vision_pcvr.Fec.Codec.{Shard, ReedSolomon, FloatOps}
use focus_vision_pcvr.Fec.Encoder.{FecEncoder, FecError}
use focus_vision_pcvr.Fec.Encoder

-- The chunk at the front of a shard of zeros.
unfoldable pub pad_shard : List ℕ → Shard
pad_shard chunk = chunk ++ replicate (fec_shard_size - length chunk) 0

unfoldable pub to_data_shards : List ℕ → List Shard
unfolding pad_shard
to_data_shards bytes = map pad_shard (chunks fec_shard_size bytes)

-- One round of the loop of `shards_to_packets`: shard `i` of `total_shards`.
unfoldable pub shard_packet :
    ℕ → ℕ → ℕ → ℕ → ℕ → RtpPacketizer → ℕ → Shard → RtpPacket × RtpPacketizer
unfolding take_buf next_sequence
shard_packet total_shards data_count frame_index timestamp flags p i shard =
    let (seq, p₁) = next_sequence p in
    let (buf, p₂) = take_buf p₁ in
    let headed = write_rtp_header buf rtp_pt_h265 (i == total_shards - 1) seq timestamp 0x42 in
    (
      write_fvp_header headed frame_index (i % 2 ^ 16) (total_shards % 2 ^ 16) flags
            (data_count % 2 ^ 16)
          ++ shard,
      p₂,
    )

unfoldable pub shard_packets :
    ℕ → ℕ → ℕ → ℕ → ℕ → RtpPacketizer → ℕ → List Shard → List RtpPacket × RtpPacketizer
shard_packets total_shards data_count frame_index timestamp flags p i [] = ([], p)
shard_packets total_shards data_count frame_index timestamp flags p i (shard ∷ rest) =
    let (pkt, p') = shard_packet total_shards data_count frame_index timestamp flags p i shard in
    let (packets, p'') =
      shard_packets total_shards data_count frame_index timestamp flags p' (i + 1) rest in
    (pkt ∷ packets, p'')

unfoldable pub shards_to_packets :
    List Shard → ℕ → ℕ → ℕ → ℕ → RtpPacketizer → List RtpPacket × RtpPacketizer
unfolding shard_packets shard_packet
shards_to_packets all_shards data_count frame_index timestamp flags p =
    if ltb max_frame_shards (length all_shards)
    then ([], p)
    else shard_packets (length all_shards) data_count frame_index timestamp flags p 0 all_shards

unfoldable pub encode_frame_without_fec :
    List ℕ → ℕ → ℕ → Bool → RtpPacketizer → List RtpPacket × RtpPacketizer
unfolding shards_to_packets to_data_shards Flags.encode_simple
encode_frame_without_fec frame_data frame_index timestamp is_keyframe p =
    let shards = to_data_shards frame_data in
    shards_to_packets shards (length shards) frame_index timestamp (Flags.encode_simple is_keyframe)
      p

module _ (fl : FloatOps) (rs : ReedSolomon) where
  -- Without a code word the frame goes out unprotected.
  abbrev pub coded_packets :
      List ℕ
      → ℕ
      → ℕ
      → Bool
      → ℕ
      → RtpPacketizer
      → Result FecError (List Shard)
      → List RtpPacket × RtpPacketizer
  coded_packets frame_data frame_index timestamp is_keyframe data_count p (ok all_shards) =
      shards_to_packets all_shards data_count frame_index timestamp
        (Flags.encode_simple is_keyframe) p
  coded_packets frame_data frame_index timestamp is_keyframe data_count p (err e) =
      encode_frame_without_fec frame_data frame_index timestamp is_keyframe p

  unfoldable pub encode_frame_to_packets_with_fec :
      List ℕ
      → ℕ
      → ℕ
      → Bool
      → FecEncoder
      → RtpPacketizer
      → List RtpPacket × FecEncoder × RtpPacketizer
  encode_frame_to_packets_with_fec frame_data frame_index timestamp is_keyframe fec p =
      let data_shards = to_data_shards frame_data in
      if length data_shards == 0
      then ([], fec, p)
      else (let (fec', coded) = Encoder.encode fl rs fec data_shards in
          let (packets, p') =
            coded_packets frame_data frame_index timestamp is_keyframe (length data_shards) p
              coded in
          (packets, fec', p'))

  unfoldable pub encode_frame_to_packets :
      List ℕ → ℕ → ℕ → Bool → ℕ → RtpPacketizer → List RtpPacket × RtpPacketizer
  unfolding encode_frame_to_packets_with_fec Encoder.new
  encode_frame_to_packets frame_data frame_index timestamp is_keyframe fec_redundancy p =
      let (packets, fec, p') =
        encode_frame_to_packets_with_fec frame_data frame_index timestamp is_keyframe
          (Encoder.new fec_redundancy) p in
      (packets, p')
