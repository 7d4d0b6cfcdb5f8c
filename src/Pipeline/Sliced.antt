-- ===== src/Pipeline/Sliced.antt =====
-- Sliced frames and the per-session encoder: `encode_frame_sliced` and `FrameFecEncoder` of
-- pipeline.rs.
use focus_vision_pcvr.Prelude.{
  ℕ, ◌+◌, ◌%◌, ◌^◌, min, Bool, List, [], ◌∷◌, ◌++◌, map, length, replicate, ok, err, ltb, ◌==◌,
  if◌then◌else◌,
}
use focus_vision_pcvr.Prelude.Words.{to_le_bytes}
use focus_vision_pcvr.Protocol.Flags
use focus_vision_pcvr.Rtp.Packetizer.{RtpPacket, RtpPacketizer, recycle}
use focus_vision_pcvr.Slice.{split}
use focus_vision_pcvr.Fec.Codec.{ReedSolomon, FloatOps}
use focus_vision_pcvr.Fec.Encoder.{FecEncoder}
use focus_vision_pcvr.Fec.Encoder
use focus_vision_pcvr.Pipeline.Layout.{bulk, sliced, unprotected, choose_fec_layout}
use focus_vision_pcvr.Pipeline.Encode.{
  to_data_shards, shards_to_packets, encode_frame_without_fec, encode_frame_to_packets_with_fec,
}

-- The slice behind its length, as the receiver needs it to cut off the padding.
unfoldable pub prefixed : List ℕ → List ℕ
prefixed slice = to_le_bytes 4 (length slice) ++ slice

-- All batches go back to the pool of buffers.
unfoldable pub recycle_all : RtpPacketizer → List (List RtpPacket) → RtpPacketizer
recycle_all p [] = p
recycle_all p (batch ∷ batches) = recycle_all (recycle p batch) batches

-- What the caller has after a frame: its batches of packets, the encoders and the packetizer.
abbrev pub Batches : Type 0
Batches = List (List RtpPacket) × List FecEncoder × RtpPacketizer

-- An encoder that is done stands in front of those still to be used.
abbrev pub done_with : FecEncoder → Batches → Batches
done_with e (batches, encoders, p) = (batches, e ∷ encoders, p)

-- How many slices a frame of `frame_len` bytes is cut into.
unfoldable pub effective_slice_count : ℕ → ℕ → ℕ
effective_slice_count slice_count frame_len =
    min (min slice_count Flags.max_slice_count) (min frame_len 255 % 256)

module _ (fl : FloatOps) (rs : ReedSolomon) where
  -- The loop over slices and encoders; `batches` are those made so far.
  unfoldable pub sliced_loop :
      ℕ
      → ℕ
      → Bool
      → ℕ
      → ℕ
      → List (List RtpPacket)
      → RtpPacketizer
      → List (List ℕ)
      → List FecEncoder
      → Batches
  sliced_loop frame_index timestamp is_keyframe slice_count i batches p [] encoders =
      (batches, encoders, p)
  sliced_loop frame_index timestamp is_keyframe slice_count i batches p (slice ∷ slices) [] =
      (batches, [], p)
  sliced_loop frame_index timestamp is_keyframe slice_count i batches p (slice ∷ slices)
        (fec ∷ encoders) =
      let data_shards = to_data_shards (prefixed slice) in
      let (fec', coded) = Encoder.encode fl rs fec data_shards in
      elim coded [
        | err e ↦ ([], fec' ∷ encoders, recycle_all p batches)
        | ok all_shards ↦
            (let flags = Flags.encode is_keyframe (i % 256) slice_count 0 in
              let (packets, p') =
                shards_to_packets all_shards (length data_shards) frame_index timestamp flags p in
              done_with fec' (
                sliced_loop frame_index timestamp is_keyframe slice_count (i + 1)
                  (batches ++ (packets ∷ [])) p' slices encoders))
      ]

  unfoldable pub encode_frame_sliced :
      List ℕ → ℕ → ℕ → Bool → ℕ → List FecEncoder → RtpPacketizer → Batches
  unfolding sliced_loop effective_slice_count
  encode_frame_sliced frame_data frame_index timestamp is_keyframe slice_count encoders p =
      let count = effective_slice_count slice_count (length frame_data) in
      if count == 0
      then ([], encoders, p)
      else (if ltb (length encoders) count
          then ([], encoders, p)
          else sliced_loop frame_index timestamp is_keyframe count 0 [] p (split frame_data count)
              encoders)

pub record FrameFecEncoder : Type 0 where
  pub bulk_encoder : FecEncoder
  pub slices : List FecEncoder
  pub slice_fec_enabled : Bool
  pub slice_count : ℕ
  pub unprotected_frames : ℕ

unfoldable pub new : ℕ → Bool → ℕ → FrameFecEncoder
unfolding Encoder.new
new redundancy slice_fec_enabled slice_count = record {
  bulk_encoder = Encoder.new redundancy;
  slices = replicate Flags.max_slice_count (Encoder.new redundancy);
  slice_fec_enabled = slice_fec_enabled;
  slice_count = slice_count;
  unprotected_frames = 0;
}

module _ (fl : FloatOps) where
  unfoldable pub set_redundancy : FrameFecEncoder → ℕ → FrameFecEncoder
  unfolding Encoder.set_redundancy
  set_redundancy f redundancy = record f {
    bulk_encoder = Encoder.set_redundancy fl f.bulk_encoder redundancy;
    slices = map (λ e. Encoder.set_redundancy fl e redundancy) f.slices;
  }

-- `if packets.is_empty() { vec![] } else { vec![packets] }`
abbrev pub one_batch : List RtpPacket → List (List RtpPacket)
one_batch [] = []
one_batch (packet ∷ packets) = (packet ∷ packets) ∷ []

module _ (fl : FloatOps) (rs : ReedSolomon) where
  unfoldable pub encode :
      FrameFecEncoder
      → List ℕ
      → ℕ
      → ℕ
      → Bool
      → RtpPacketizer
      → List (List RtpPacket) × FrameFecEncoder × RtpPacketizer
  encode f frame_data frame_index timestamp is_keyframe p =
      elim (choose_fec_layout (length frame_data) f.slice_fec_enabled f.slice_count
        (Encoder.max_data_shards fl f.bulk_encoder)) [
          | sliced n ↦
              (let (batches, encoders, p') =
                  encode_frame_sliced fl rs frame_data frame_index timestamp is_keyframe n f.slices
                    p in
                (batches, record f { slices = encoders }, p'))
          | bulk ↦
              (let (packets, fec, p') =
                  encode_frame_to_packets_with_fec fl rs frame_data frame_index timestamp
                    is_keyframe f.bulk_encoder p in
                (one_batch packets, record f { bulk_encoder = fec }, p'))
          | unprotected ↦
              (let (packets, p') =
                  encode_frame_without_fec frame_data frame_index timestamp is_keyframe p in
                (
                  one_batch packets,
                  record f { unprotected_frames = (f.unprotected_frames + 1) % 2 ^ 64 },
                  p',
                ))
        ]
