-- ===== src/Rtp/RoundTrip.antt =====
-- From the packetizer to the depacketizer, without loss.
use focus_vision_pcvr.Prelude.{
  ℕ, ◌-◌, ◌*◌, ◌^◌, ◌≤◌, ◌<◌, ◌≡◌, refl, Bool, false, List, [], ◌∷◌, arith, length, ==_ne,
  le→not_ltb,
}
use focus_vision_pcvr.Prelude.Chunks.{chunks, concat-chunks, length-chunks, length-chunks-pos}
use focus_vision_pcvr.Rtp.Header.{max_payload}
use focus_vision_pcvr.Rtp.Packetizer.{RtpPacketizer, packetize}
use focus_vision_pcvr.Rtp.Depacketizer.{RtpDepacketizer, feed_all, is_current}
use focus_vision_pcvr.Rtp.Sending.{packetize_loop-wire}
use focus_vision_pcvr.Rtp.Collecting.{feed_all-wire}

-- A frame that is not empty and fits in 4096 packets of 1376 bytes, sent with a frame index below
-- 2^32 to a depacketizer in any state that is not collecting that index, comes out whole: the packets
-- of `packetize` give exactly one frame, with the sender's index, keyframe flag and bytes.
pub packetize_round_trip :
    (p : RtpPacketizer) (d : RtpDepacketizer) (frame : List ℕ) (fi ts : ℕ) (k : Bool)
    → 0 < length frame
    → length frame ≤ 4096 * 1376
    → fi < 2 ^ 32
    → is_current d.current_frame_index fi ≡ false
    → (feed_all d (packetize p frame fi ts k).0).1
      ≡ record { frame_index = fi; is_keyframe = k; frame_data = frame } ∷ []
unfolding packetize
packetize_round_trip p d frame fi ts k pos small hfi other =
    let pieces = chunks max_payload frame in
    let few : length pieces ≤ 4096 = omega (arith, length-chunks max_payload frame (omega arith)) in
    rw
      (
        ==_ne (length frame) 0 (λ e. omega (arith, e)),
        le→not_ltb (2 ^ 16 - 1) (length pieces) (omega arith),
        packetize_loop-wire (length pieces) fi ts k pieces p 0 (omega arith) (omega arith),
        feed_all-wire (length pieces) fi ts p.ssrc k d pieces p.sequence few
            (length-chunks-pos max_payload frame pos) hfi refl other,
        concat-chunks max_payload frame (omega arith),
      )
      refl
