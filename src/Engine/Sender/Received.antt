-- ===== src/Engine/Sender/Received.antt =====
-- What a client reads of a frame that was sent with its pose.
use focus_vision_pcvr.Prelude.{
  ℕ, ◌+◌, ◌-◌, ◌*◌, ◌^◌, ◌≤◌, ◌<◌, ◌≡◌, refl, ap, ◌∙◌, if_true, Bool, true, false, Option, none,
  some, List, [], ◌∷◌, ◌++◌, append_assoc, map, arith, length, get_or, replicate, concat, All,
  le→leb, leb,
}
use focus_vision_pcvr.Protocol.FramePose.{Orientation, IsGiven, kept, parse-encode}
use focus_vision_pcvr.Protocol.FramePose
use focus_vision_pcvr.Rtp.Depacketizer.{ReassembledFrame}
use focus_vision_pcvr.Fec.Codec.{
  ReedSolomon, FloatOps, IsErasureCode, AcceptsCounts, IsMonotone, count_true,
}
use focus_vision_pcvr.Fec.Encoder.{max_data_shards}
use focus_vision_pcvr.Fec.Cache.{IsCached}
use focus_vision_pcvr.Pipeline.Encode.{to_data_shards}
use focus_vision_pcvr.Pipeline.Sliced
use focus_vision_pcvr.Pipeline.Layout.{bulk, choose_fec_layout}
use focus_vision_pcvr.Pipeline.Reassemble.{Reassembler, feed_all}
use focus_vision_pcvr.Pipeline.Collect.{IsOther}
use focus_vision_pcvr.Pipeline.CodeWord.{padded_frame, data_count, parity_count}
use focus_vision_pcvr.Pipeline.Delivery.{mark}
use focus_vision_pcvr.Pipeline.RoundTrip.{bulk_round_trip}
use focus_vision_pcvr.Metrics.Latency.{LatencyTracker}
use focus_vision_pcvr.Engine.Sender.{
  EncodedFrame, SentPacketLog, VideoSender, payload_of, timestamp_90khz, send_frame,
}

posed_length : (frame : EncodedFrame) → 20 ≤ length (payload_of true frame)
unfolding payload_of FramePose.encode
posed_length frame = go frame.render_orientation
  where
    go :
        (orientation : Option Orientation)
        → 20 ≤ length (FramePose.encode orientation ++ frame.nal_data)
    go none = omega arith
    go (some q) = omega arith

-- A payload that arrives with zeros behind it is the pose and the data with the same zeros.
parse-posed :
    (frame : EncodedFrame) (zeros : List ℕ)
    → IsGiven frame.render_orientation
    → FramePose.parse (payload_of true frame ++ zeros)
      ≡ some (kept frame.render_orientation, frame.nal_data ++ zeros)
unfolding payload_of
parse-posed frame zeros given =
    rw (append_assoc (FramePose.encode frame.render_orientation) frame.nal_data zeros)
      (parse-encode frame.render_orientation (frame.nal_data ++ zeros) given)

-- The zeros that fill up the last shard of a payload.
abbrev pub zeros_of : List ℕ → List ℕ
zeros_of payload = replicate (length (to_data_shards payload) * 1200 - length payload) 0

-- Of the packets that arrive, the ones of these indices, as many are different as there are data shards.
abbrev pub IsEnough : FloatOps → List ℕ → VideoSender → List ℕ → Type 0
IsEnough fl payload s is =
    let total = data_count payload + parity_count fl payload s.fec_encoder.bulk_encoder in
    All (λ i. i < total) is × (data_count payload ≤ count_true (mark (replicate total false) is))

-- The payload goes out as one code word that the codec can restore.
pub record IsRestorable (fl : FloatOps) (rs : ReedSolomon) (payload : List ℕ) (s : VideoSender)
    : Type 0 where
  pub mono : IsMonotone fl
  pub accepts : AcceptsCounts rs
  pub code :
      IsErasureCode rs (data_count payload) (parity_count fl payload s.fec_encoder.bulk_encoder)
  pub cached : IsCached rs s.fec_encoder.bulk_encoder
  pub layout :
      choose_fec_layout
        (length payload)
        s.fec_encoder.slice_fec_enabled
        s.fec_encoder.slice_count
        (max_data_shards fl s.fec_encoder.bulk_encoder)
      ≡ bulk

module _ (fl : FloatOps) (rs : ReedSolomon) (newest_first : SentPacketLog → SentPacketLog) where
  abbrev batches_of :
      (ℕ → ℕ) → ℕ → Bool → ℕ → EncodedFrame → VideoSender → LatencyTracker → List (List (List ℕ))
  batches_of send_us now free framerate frame s tracker =
      (send_frame fl rs newest_first send_us now free framerate frame s tracker).0

  batches-posed :
      (send_us : ℕ → ℕ) (now framerate : ℕ) (free : Bool) (frame : EncodedFrame) (s : VideoSender)
      (tracker : LatencyTracker)
      → s.frame_pose ≡ true
      → batches_of send_us now free framerate frame s tracker
        ≡ (Sliced.encode fl rs s.fec_encoder
            (payload_of true frame)
            frame.frame_index
            (timestamp_90khz s.frame_count framerate)
            frame.is_idr
            s.packetizer).0
  unfolding send_frame
  batches-posed send_us now framerate free frame s tracker posed =
      ap
        (λ b.
          (Sliced.encode fl rs s.fec_encoder (payload_of b frame) frame.frame_index
            (timestamp_90khz s.frame_count framerate) frame.is_idr s.packetizer).0)
        posed

-- For a session whose client reads poses, and a frame that goes out in bulk: from as many different
-- packets of those that `send_frame` hands to the socket as the frame has data shards, in any order
-- and with repetitions, a receiver that is not collecting a frame of that index gets the frame
-- exactly once, with its index and its keyframe mark, and reads in it the orientation the frame was
-- rendered at, if its floats are finite, and behind it the encoder's data and the zeros that fill up
-- the last shard. The codec is assumed to accept every count that fits one code word and to be a
-- systematic erasure code at these counts, the float product to be monotone, and the encoder's cache
-- to be as it was made; the frame index and the orientation's floats have 32 bits.
pub send_frame-received :
    (fl : FloatOps) (rs : ReedSolomon) (newest_first : SentPacketLog → SentPacketLog)
    (send_us : ℕ → ℕ) (now framerate : ℕ) (free : Bool) (frame : EncodedFrame) (s : VideoSender)
    (tracker : LatencyTracker) (r : Reassembler) (is : List ℕ)
    → s.frame_pose ≡ true
    → IsRestorable fl rs (payload_of true frame) s
    → frame.frame_index < 2 ^ 32
    → IsGiven frame.render_orientation
    → IsOther frame.frame_index r
    → IsEnough fl (payload_of true frame) s is
    → (received : ReassembledFrame) × ((feed_all rs r (
          map
            (λ i.
              get_or
                (concat
                  (send_frame fl rs newest_first send_us now free framerate frame s tracker).0)
                i
                [])
            is)).1
        ≡ received ∷ [])
      × (received.frame_index ≡ frame.frame_index)
      × (received.is_keyframe ≡ frame.is_idr)
      × (FramePose.parse received.frame_data
          ≡ some
              (kept frame.render_orientation, frame.nal_data ++ zeros_of (payload_of true frame)))
send_frame-received fl rs newest_first send_us now framerate free frame s tracker r is posed good
      index given other enough =
    let payload = payload_of true frame in
    let sent =
      bulk_round_trip fl rs s.fec_encoder payload frame.frame_index
        (timestamp_90khz s.frame_count framerate) frame.is_idr s.packetizer r is good.mono
        good.accepts good.code good.cached (omega (arith, posed_length frame)) good.layout index
        other enough.0 in
    (
      padded_frame payload frame.frame_index frame.is_idr,
      rw (batches-posed fl rs newest_first send_us now framerate free frame s tracker posed) (
          sent.1
          ∙ if_true (leb (data_count payload) _) _ [] (le→leb (data_count payload) _ enough.1)),
      refl,
      refl,
      parse-posed frame (zeros_of payload) given,
    )
