-- ===== src/Engine/Sender/Tests.antt =====
-- A small frame that is sent with its pose.
use focus_vision_pcvr.Prelude.{
  ◌≡◌, ◌+◌, refl, inl, true, false, none, some, [], ◌∷◌, ◌++◌, map, arith, get_or, concat,
}
use focus_vision_pcvr.Prelude.Chunks.{chunks}
use focus_vision_pcvr.Protocol.FramePose.{Orientation, kept}
use focus_vision_pcvr.Protocol.FramePose
use focus_vision_pcvr.Rtp.Depacketizer.{ReassembledFrame}
use focus_vision_pcvr.Fec.Copies.{
  copies, fifth, copies-AcceptsCounts, fifth-IsMonotone, copies-IsErasureCode,
}
use focus_vision_pcvr.Fec.Encoder.{max_data_shards, parity_for}
use focus_vision_pcvr.Pipeline.Layout.{choose_fec_layout}
use focus_vision_pcvr.Pipeline.Encode.{to_data_shards}
use focus_vision_pcvr.Pipeline.Reassemble.{feed_all}
use focus_vision_pcvr.Pipeline.Delivery.{mark}
use focus_vision_pcvr.Pipeline.Sliced
use focus_vision_pcvr.Metrics.Latency.{tracker, encoded}
use focus_vision_pcvr.Engine.Sender.{
  EncodedFrame, SentPacketLog, VideoSender, new, payload_of, send_frame,
}
use focus_vision_pcvr.Engine.Sender.Received.{IsRestorable, IsEnough, zeros_of, send_frame-received}

abbrev frame : EncodedFrame
frame = record {
  frame_index = 5;
  nal_data = 7 ∷ 8 ∷ 9 ∷ [];
  is_idr = true;
  timestamps = encoded 9_000 1_000 5;
  render_orientation = some (record { x = 0; y = 0; z = 0; w = 0x3f80_0000 });
}

abbrev sender : VideoSender
sender = new 0x3e4c_cccd false 4 true

abbrev as_it_is : SentPacketLog → SentPacketLog
as_it_is log = log

restorable : IsRestorable fifth copies (payload_of true frame) sender
unfolding to_data_shards chunks parity_for mark Sliced.new max_data_shards choose_fec_layout
    payload_of FramePose.encode new
restorable = record {
  mono = fifth-IsMonotone;
  accepts = copies-AcceptsCounts;
  code = copies-IsErasureCode 1;
  cached = inl refl;
  layout = refl;
}

-- Of the two packets only the second arrives, which is the parity shard.
enough : IsEnough fifth (payload_of true frame) sender (1 ∷ [])
unfolding to_data_shards chunks parity_for mark Sliced.new payload_of FramePose.encode new
enough = ((omega arith, tt), omega arith)

send_frame-received_example :
    (received : ReassembledFrame) × ((feed_all copies none (
        map
          (λ i.
            get_or
              (concat
                (send_frame fifth copies as_it_is
                  (λ i. 70 + i)
                  9_500
                  true
                  90
                  frame
                  sender
                  (tracker 100)).0)
              i
              [])
          (1 ∷ []))).1
      ≡ received ∷ [])
    × (received.frame_index ≡ 5)
    × (received.is_keyframe ≡ true)
    × (FramePose.parse received.frame_data
        ≡ some (
          kept (some (record { x = 0; y = 0; z = 0; w = 0x3f80_0000 })),
          (7 ∷ 8 ∷ 9 ∷ []) ++ zeros_of (payload_of true frame),
        ))
unfolding new
send_frame-received_example =
    send_frame-received fifth copies as_it_is (λ i. 70 + i) 9_500 90 true frame sender (tracker 100)
      none (1 ∷ []) refl restorable (omega arith)
      (omega arith, omega arith, omega arith, omega arith) tt enough
