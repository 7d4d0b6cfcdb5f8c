-- ===== src/Pipeline/Tests.antt =====
-- Runs of the pipeline on small frames, and its theorems at concrete inputs.
use focus_vision_pcvr.Prelude.{
  ℕ, ◌≡◌, refl, inl, true, false, none, List, [], ◌∷◌, map, arith, length, get_or, concat, ok,
}
use focus_vision_pcvr.Prelude.Chunks.{chunks}
use focus_vision_pcvr.Fec.Copies.{
  copies, fifth, copies-AcceptsCounts, fifth-IsMonotone, copies-IsErasureCode,
}
use focus_vision_pcvr.Fec.Encoder.{max_data_shards, parity_for}
use focus_vision_pcvr.Rtp.Packetizer
use focus_vision_pcvr.Pipeline.Layout.{choose_fec_layout}
use focus_vision_pcvr.Pipeline.LayoutLaws.{IsChosen, is_bulk, choose_fec_layout-IsChosen}
use focus_vision_pcvr.Fec.Encoder
use focus_vision_pcvr.Pipeline.Encode.{to_data_shards, encode_frame_to_packets_with_fec}
use focus_vision_pcvr.Pipeline.DecodePackets.{decode_packets_to_frame}
use focus_vision_pcvr.Pipeline.DecodePackets.Restores.{decode-encode_frame}
use focus_vision_pcvr.Pipeline.Reassemble.{feed_all}
use focus_vision_pcvr.Pipeline.Delivery.{mark}
use focus_vision_pcvr.Pipeline.RoundTrip.{bulk_round_trip}
use focus_vision_pcvr.Pipeline.CodeWord.{padded_frame}
use focus_vision_pcvr.Pipeline.Sliced
use focus_vision_pcvr.Pipeline.Sliced.{FrameFecEncoder}

abbrev small_frame : List ℕ
small_frame = 7 ∷ 8 ∷ 9 ∷ []

abbrev encoder : FrameFecEncoder
encoder = Sliced.new 0x3e4c_cccd false 4

abbrev small_batches : List (List (List ℕ))
small_batches = (Sliced.encode fifth copies encoder small_frame 5 0 true (Packetizer.new 0x42)).0

-- Of the two packets only the second arrives, which is the parity shard.
bulk_round_trip_example :
    (map length small_batches ≡ 2 ∷ [])
    × ((feed_all copies none (map (λ i. get_or (concat small_batches) i []) (1 ∷ []))).1
        ≡ padded_frame small_frame 5 true ∷ [])
unfolding to_data_shards chunks parity_for mark Sliced.new max_data_shards choose_fec_layout
bulk_round_trip_example =
    bulk_round_trip fifth copies encoder small_frame 5 0 true (Packetizer.new 0x42) none (1 ∷ [])
      fifth-IsMonotone copies-AcceptsCounts (copies-IsErasureCode 1) (inl refl) (omega arith) refl
      (omega arith) tt (omega arith, tt)

choose_fec_layout-IsChosen_example :
    IsChosen 300_000 200 4 (choose_fec_layout 300_000 true 4 200)
    × (is_bulk (choose_fec_layout 300_000 true 4 200) ≡ false)
choose_fec_layout-IsChosen_example = choose_fec_layout-IsChosen 300_000 true 4 200

-- All three come, one of them twice, and the last first.
decode-encode_frame_example :
    decode_packets_to_frame copies
      (map
        (λ i.
          get_or
            (encode_frame_to_packets_with_fec fifth copies small_frame 5 0 true
              (Encoder.new 0x3e4c_cccd)
              (Packetizer.new 0x42)).0
            i
            [])
        (1 ∷ 0 ∷ 1 ∷ []))
      1
      2
      3
    ≡ ok small_frame
unfolding to_data_shards chunks parity_for mark Encoder.new
decode-encode_frame_example =
    decode-encode_frame fifth copies small_frame (Encoder.new 0x3e4c_cccd) 5 0 true
      (Packetizer.new 0x42) (1 ∷ 0 ∷ 1 ∷ [])
      (record {
        filled = omega arith;
        fits = omega arith;
        cached = inl refl;
        accepts = refl;
        code = copies-IsErasureCode 1;
      })
      (omega arith) (omega arith, (omega arith, (omega arith, tt))) (omega arith)
