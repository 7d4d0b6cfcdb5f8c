-- ===== src/Pipeline/RoundTrip.antt =====
-- From the sender's encoder to the receiver's reassembler, for a frame that is one code word.
use focus_vision_pcvr.Prelude.{
  ℕ, ◌+◌, ◌^◌, ◌≤◌, ◌<◌, ◌≡◌, refl, ap, Bool, false, List, [], ◌∷◌, map, arith, length, append-nil,
  get_or, replicate, concat, All, if◌then◌else◌, leb,
}
use focus_vision_pcvr.Rtp.Packetizer.{RtpPacket, RtpPacketizer}
use focus_vision_pcvr.Fec.Codec.{
  ReedSolomon, FloatOps, IsErasureCode, AcceptsCounts, IsMonotone, count_true,
}
use focus_vision_pcvr.Fec.Encoder.{max_data_shards}
use focus_vision_pcvr.Fec.Cache.{IsCached}
use focus_vision_pcvr.Fec.CodeWord.{fits_of_le, parity_for_pos}
use focus_vision_pcvr.Pipeline.Encode.{encode_frame_to_packets_with_fec}
use focus_vision_pcvr.Pipeline.Padding.{length-to_data_shards}
use focus_vision_pcvr.Pipeline.Reassemble.{Reassembler, feed_all}
use focus_vision_pcvr.Pipeline.Collect.{IsOther}
use focus_vision_pcvr.Pipeline.Delivery.{mark}
use focus_vision_pcvr.Pipeline.Layout.{bulk, choose_fec_layout}
use focus_vision_pcvr.Pipeline.LayoutLaws.{choose-bulk}
use focus_vision_pcvr.Pipeline.Sliced.{FrameFecEncoder, one_batch}
use focus_vision_pcvr.Pipeline.Sliced
use focus_vision_pcvr.Pipeline.CodeWord.{
  padded_frame, data_count, parity_count, IsCodable, feed_all-encode_frame,
}

one_batch_pos : (packets : List RtpPacket) → 0 < length packets → one_batch packets ≡ packets ∷ []
one_batch_pos [] h = absurd (omega arith)
one_batch_pos (pkt ∷ packets) h = refl

batches_bulk :
    (fl : FloatOps) (rs : ReedSolomon) (f : FrameFecEncoder) (frame : List ℕ) (fi ts : ℕ) (k : Bool)
    (pz : RtpPacketizer)
    → choose_fec_layout
        (length frame)
        f.slice_fec_enabled
        f.slice_count
        (max_data_shards fl f.bulk_encoder)
      ≡ bulk
    → (Sliced.encode fl rs f frame fi ts k pz).0
      ≡ one_batch (encode_frame_to_packets_with_fec fl rs frame fi ts k f.bulk_encoder pz).0
unfolding Sliced.encode
batches_bulk fl rs f frame fi ts k pz layout = rw (layout, Sliced.encode)

-- For a frame that goes out in bulk, and a receiver that is not collecting a frame of that index:
-- the encoder makes one batch of as many packets as the frame has data and parity shards, and
-- whichever of them arrive, in any order and with repetitions, the receiver hands over nothing until
-- as many different ones as there are data shards have come, and then the frame, filled up with
-- zeros, exactly once. The codec is assumed to accept every count that fits one code word and to be a
-- systematic erasure code at these counts, the float product to be monotone, the encoder's cache to
-- be as it was made, and the frame index to fit its field.
pub bulk_round_trip :
    (fl : FloatOps) (rs : ReedSolomon) (f : FrameFecEncoder) (frame : List ℕ) (fi ts : ℕ) (k : Bool)
    (pz : RtpPacketizer) (r : Reassembler) (is : List ℕ)
    → IsMonotone fl
    → AcceptsCounts rs
    → IsErasureCode rs (data_count frame) (parity_count fl frame f.bulk_encoder)
    → IsCached rs f.bulk_encoder
    → 0 < length frame
    → choose_fec_layout
        (length frame)
        f.slice_fec_enabled
        f.slice_count
        (max_data_shards fl f.bulk_encoder)
      ≡ bulk
    → fi < 2 ^ 32
    → IsOther fi r
    → All (λ i. i < data_count frame + parity_count fl frame f.bulk_encoder) is
    → (map length (Sliced.encode fl rs f frame fi ts k pz).0
        ≡ (data_count frame + parity_count fl frame f.bulk_encoder) ∷ [])
      × ((feed_all rs r
            (map (λ i. get_or (concat (Sliced.encode fl rs f frame fi ts k pz).0) i []) is)).1
          ≡ (if leb (data_count frame) (
                count_true (
                  mark
                    (replicate (data_count frame + parity_count fl frame f.bulk_encoder) false)
                    is))
              then padded_frame frame fi k ∷ []
              else []))
bulk_round_trip fl rs f frame fi ts k pz r is mono accepts code cached pos layout hfi other his =
    let fits : data_count frame + parity_count fl frame f.bulk_encoder ≤ 256 =
      fits_of_le fl f.bulk_encoder (data_count frame) mono
        (omega (arith, length-to_data_shards frame))
        (omega (
          arith,
          choose-bulk (length frame) f.slice_fec_enabled f.slice_count
              (max_data_shards fl f.bulk_encoder) layout,
          length-to_data_shards frame,
        )) in
    let codable : IsCodable fl rs frame f.bulk_encoder = record {
      filled = pos;
      fits = fits;
      cached = cached;
      accepts =
          accepts (data_count frame) (parity_count fl frame f.bulk_encoder)
            (omega (arith, length-to_data_shards frame)) (parity_for_pos fl f.bulk_encoder _) fits;
      code = code;
    } in
    let sent =
      feed_all-encode_frame fl rs frame f.bulk_encoder codable fi ts k pz r is hfi other his in
    rw
      (
        batches_bulk fl rs f frame fi ts k pz layout,
        one_batch_pos (encode_frame_to_packets_with_fec fl rs frame fi ts k f.bulk_encoder pz).0
            (omega (arith, sent.0, codable.filled, length-to_data_shards frame)),
        append-nil (encode_frame_to_packets_with_fec fl rs frame fi ts k f.bulk_encoder pz).0,
      )
      (ap (λ n. n ∷ []) sent.0, sent.1)
