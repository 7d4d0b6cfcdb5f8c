-- ===== src/Pipeline/DecodePackets/Restores.antt =====
-- A frame restored by a caller that knows its counts.
use focus_vision_pcvr.Prelude.{
  ℕ, ◌+◌, ◌-◌, ◌*◌, ◌^◌, ◌≤◌, ◌<◌, ◌≡◌, refl, ap, sym, ◌∙◌, Bool, true, false, none, List, [], ◌∷◌,
  ◌++◌, map, arith, length, length-replicate, take, take-append_left, set, get_or, replicate,
  concat, All, ok, lt→ltb, le→not_ltb, ==_ne,
}
use focus_vision_pcvr.Rtp.Packetizer.{RtpPacket, RtpPacketizer}
use focus_vision_pcvr.Fec.Codec.{Shard, ReedSolomon, FloatOps, arrived, count_true}
use focus_vision_pcvr.Fec.Masks.{set-arrived, arrived-none}
use focus_vision_pcvr.Fec.Encoder.{FecEncoder, decode}
use focus_vision_pcvr.Pipeline.Encode.{to_data_shards, encode_frame_to_packets_with_fec}
use focus_vision_pcvr.Pipeline.Padding.{concat-to_data_shards}
use focus_vision_pcvr.Pipeline.Group.{decode-arrived}
use focus_vision_pcvr.Pipeline.Delivery.{mark, ArePackets, length-mark}
use focus_vision_pcvr.Pipeline.CodeWord.{
  data_count, parity_count, IsCodable, coded, code_word, length-code_word, sent-packets,
  code_word-IsSent, sent-reads,
}
use focus_vision_pcvr.Pipeline.DecodePackets.{
  place_shard, place_shards, truncated, decode_packets_to_frame,
}

abbrev zeros_of : List ℕ → List ℕ
zeros_of frame = replicate (length (to_data_shards frame) * 1200 - length frame) 0

module _ (rs : ReedSolomon) (fi : ℕ) (k : Bool) (cw : List Shard) (d p n : ℕ) where
  place_shards-arrived :
      (pk : ℕ → RtpPacket) (is : List ℕ) (mask : List Bool)
      → ArePackets rs fi k cw d p n pk
      → All (λ i. i < length cw) is
      → place_shards (length cw) (map pk is) (arrived mask cw) ≡ arrived (mark mask is) cw
  unfolding place_shards mark
  place_shards-arrived pk [] mask reads his = refl
  place_shards-arrived pk (i ∷ is) mask reads his =
      ap
        (λ h.
          place_shards (length cw) (map pk is) (place_shard (length cw) (pk i) h (arrived mask cw)))
        (reads i his.0).0
      ∙ (rw (lt→ltb i (length cw) his.0, (reads i his.0).1, set-arrived mask cw i)
          (place_shards-arrived pk is (set mask i true) reads his.1))

-- The counts of a code word pass the check.
decode-counted :
    (rs : ReedSolomon) (packets : List RtpPacket) (d total frame_len : ℕ)
    → 0 < d
    → d ≤ total
    → total ≤ 4096
    → decode_packets_to_frame rs packets d total frame_len
      ≡ truncated frame_len (decode rs (place_shards total packets (replicate total none)) d)
unfolding decode_packets_to_frame
decode-counted rs packets d total frame_len some_data few small =
    rw
      (
        ==_ne total 0 (omega (arith, some_data, few)),
        le→not_ltb 4096 total small,
        ==_ne d 0 (omega (arith, some_data)),
        le→not_ltb total d few,
      )
      refl

-- For a frame that is one code word: a caller that knows its counts of shards and its length gets, from
-- as many different ones of the packets that the encoder makes as there are data shards, in any order
-- and with repetitions, exactly the frame, without the zeros of its last shard. The frame is not
-- empty and its shards fit one code word, the encoder's cache is as it was made, the codec accepts
-- the counts and is a systematic erasure code at them, and the frame index fits its field.
pub decode-encode_frame :
    (fl : FloatOps) (rs : ReedSolomon) (frame : List ℕ) (fec : FecEncoder) (fi ts : ℕ) (k : Bool)
    (pz : RtpPacketizer) (is : List ℕ)
    → IsCodable fl rs frame fec
    → fi < 2 ^ 32
    → All (λ i. i < data_count frame + parity_count fl frame fec) is
    → data_count frame
      ≤ count_true (mark (replicate (data_count frame + parity_count fl frame fec) false) is)
    → decode_packets_to_frame rs
        (map (λ i. get_or (encode_frame_to_packets_with_fec fl rs frame fi ts k fec pz).0 i []) is)
        (data_count frame)
        (data_count frame + parity_count fl frame fec)
        (length frame)
      ≡ ok frame
decode-encode_frame fl rs frame fec fi ts k pz is v hfi his enough =
    let cw = code_word fl rs frame fec v fi ts k pz in
    let d = data_count frame in
    let p = parity_count fl frame fec in
    let sent = code_word-IsSent fl rs frame fec v fi ts k pz in
    let total = length-code_word fl rs frame fec v fi ts k pz in
    let placed =
      place_shards-arrived rs fi k cw d p 1200 _ is (replicate (length cw) false)
        (sent-reads fl rs frame fec v fi ts k pz hfi) (rw total his) in
    let mask = mark (replicate (length cw) false) is in
    let decoded : decode rs (arrived mask cw) d ≡ ok (take d cw) =
      decode-arrived rs cw d p 1200 mask
        (length-mark (replicate (length cw) false) is ∙ length-replicate (length cw) false) total
        sent.parity_shards v.accepts (coded fl rs frame fec v fi ts k pz).4 (rw total enough) in
    let whole : concat (take d cw) ≡ frame ++ zeros_of frame =
      ap concat (take-append_left (to_data_shards frame) (coded fl rs frame fec v fi ts k pz).0)
      ∙ concat-to_data_shards frame in
    rw (sent-packets fl rs frame fec v fi ts k pz, ← total)
      (decode-counted rs _ d (length cw) (length frame) sent.data_shards (omega (arith, total))
          (omega (arith, total, v.fits))
        ∙ (ap (λ shards. truncated (length frame) (decode rs shards d))
              (ap (place_shards (length cw) _) (sym (arrived-none cw)) ∙ placed)
            ∙ (ap (truncated (length frame)) decoded
                ∙ ap ok
                    (ap (take (length frame)) whole ∙ take-append_left frame (zeros_of frame)))))
