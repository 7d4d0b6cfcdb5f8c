-- ===== src/Pipeline/CodeWord.antt =====
-- One frame as one code word: what is sent for it, and what any choice of its packets gives.
use focus_vision_pcvr.Prelude.{
  ℕ, zero, suc, ◌+◌, ◌-◌, ◌*◌, ◌^◌, ◌≤◌, ◌<◌, ◌≡◌, refl, ap, ◌∙◌, Bool, true, false, some, List, [],
  ◌∷◌, ◌++◌, map, arith, length, get_or, replicate, concat, All, length-append, take-append_left,
  if◌then◌else◌, leb, ==_ne, le→not_ltb,
}
use native.Mathlib.Nat.{zero-add}
use focus_vision_pcvr.Protocol.Flags
use focus_vision_pcvr.Rtp.Packetizer.{RtpPacketizer}
use focus_vision_pcvr.Rtp.Depacketizer.{ReassembledFrame}
use focus_vision_pcvr.Fec.Codec.{
  Shard, ReedSolomon, FloatOps, HasLength, IsErasureCode, Recovers, count_true,
}
use focus_vision_pcvr.Fec.Encoder.{FecEncoder, parity_for}
use focus_vision_pcvr.Fec.Cache.{IsCached}
use focus_vision_pcvr.Fec.CodeWord.{encode_even, parity_for_pos}
use focus_vision_pcvr.Pipeline.Encode.{
  to_data_shards, shards_to_packets, encode_frame_to_packets_with_fec,
}
use focus_vision_pcvr.Pipeline.Padding.{
  to_data_shards-HasLength, length-to_data_shards, concat-to_data_shards,
}
use focus_vision_pcvr.Rtp.Wire.{wire, wire-reads, length-wire}
use focus_vision_pcvr.Pipeline.Wire.{shard_packets-wire}
use focus_vision_pcvr.Pipeline.Reassemble.{Reassembler, feed_all}
use focus_vision_pcvr.Pipeline.Collect.{IsOther, IsSent, whole_frame}
use focus_vision_pcvr.Pipeline.Delivery.{mark, ArePackets, feed_all-other}

-- The frame that the receiver hands over: its last shard is filled up with zeros.
abbrev pub padded_frame : List ℕ → ℕ → Bool → ReassembledFrame
padded_frame frame fi k = record {
  frame_index = fi;
  is_keyframe = k;
  frame_data = frame ++ replicate (length (to_data_shards frame) * 1200 - length frame) 0;
}

All-append {ℓ κ} :
    {A : Type ℓ} (P : A → Type κ) (xs ys : List A) → All P xs → All P ys → All P (xs ++ ys)
All-append P [] ys hx hy = hy
All-append P (x ∷ xs) ys hx hy = (hx.0, All-append P xs ys hx.1 hy)

length-get_or :
    (n i : ℕ) (shards : List Shard)
    → All (HasLength n) shards
    → i < length shards
    → length (get_or shards i []) ≡ n
length-get_or n i [] h lt = absurd (omega arith)
length-get_or n zero (s ∷ shards) h lt = h.0
length-get_or n (suc i) (s ∷ shards) h lt = length-get_or n i shards h.1 (omega arith)

encode_simple-lt : (k : Bool) → Flags.encode_simple k < 2
unfolding Flags.encode_simple
encode_simple-lt true = omega arith
encode_simple-lt false = omega arith

-- The packets of a code word are its wire form.
shards_to_packets-wire :
    (cw : List Shard) (d fi ts flags : ℕ) (pz : RtpPacketizer)
    → length cw ≤ 4096
    → d ≤ length cw
    → (shards_to_packets cw d fi ts flags pz).0
      ≡ wire (length cw) d fi ts flags 0x42 pz.sequence 0 cw
unfolding shards_to_packets
shards_to_packets-wire cw d fi ts flags pz small h =
    rw (le→not_ltb 4096 (length cw) small) (
      shard_packets-wire (length cw) d fi ts flags cw pz 0 (omega arith) (omega arith)
        (omega arith))

-- The counts of data and parity shards of a frame.
abbrev pub data_count : List ℕ → ℕ
data_count frame = length (to_data_shards frame)

abbrev pub parity_count : FloatOps → List ℕ → FecEncoder → ℕ
parity_count fl frame fec = parity_for fl fec (data_count frame)

module _ (fl : FloatOps) (rs : ReedSolomon) (frame : List ℕ) (fec : FecEncoder) where
  -- The frame fits one code word, and the encoder and the codec are as they should be.
  pub record IsCodable : Type 0 where
    pub filled : 0 < length frame
    pub fits : (data_count frame) + (parity_count fl frame fec) ≤ 256
    pub cached : IsCached rs fec
    pub accepts : rs.new (data_count frame) (parity_count fl frame fec) ≡ true
    pub code : IsErasureCode rs (data_count frame) (parity_count fl frame fec)

  module _ (v : IsCodable) (fi ts : ℕ) (k : Bool) (pz : RtpPacketizer) where
    shards_filled : 0 < (data_count frame)
    shards_filled = omega (arith, length-to_data_shards frame, v.filled)

    -- The parity shards that the codec makes, with what is known of them.
    abbrev pub coded :
        (parity : List Shard) × (rs.encode
            (data_count frame)
            (parity_count fl frame fec)
            (to_data_shards frame ++ replicate (parity_count fl frame fec) (replicate 1200 0))
          ≡ some (to_data_shards frame ++ parity))
        × (length parity ≡ (parity_count fl frame fec))
        × All (HasLength 1200) parity
        × Recovers rs
            (data_count frame)
            (parity_count fl frame fec)
            (to_data_shards frame ++ parity)
    coded = v.code (to_data_shards frame) 1200 refl (to_data_shards-HasLength frame) (omega arith)

    abbrev pub code_word : List Shard
    code_word = to_data_shards frame ++ coded.0

    pub length-code_word : length code_word ≡ (data_count frame) + (parity_count fl frame fec)
    length-code_word = omega (arith, length-append (to_data_shards frame) coded.0, coded.2)

    pub sent-packets :
        (encode_frame_to_packets_with_fec fl rs frame fi ts k fec pz).0
        ≡ wire
            (length code_word)
            (data_count frame)
            fi
            ts
            (Flags.encode_simple k)
            0x42
            pz.sequence
            0
            code_word
    unfolding encode_frame_to_packets_with_fec
    sent-packets =
        rw
          (
            ==_ne (data_count frame) 0 (omega (arith, shards_filled)),
            encode_even fl rs fec (to_data_shards frame) coded.0 1200 shards_filled
                (to_data_shards-HasLength frame) v.cached v.accepts coded.1,
          )
          (shards_to_packets-wire code_word (data_count frame) fi ts (Flags.encode_simple k) pz
            (omega (arith, length-code_word, v.fits)) (omega (arith, length-code_word)))

    pub code_word-IsSent : IsSent code_word (data_count frame) (parity_count fl frame fec) 1200
    code_word-IsSent = record {
      data_shards = shards_filled;
      parity_shards = parity_for_pos fl fec (data_count frame);
      total = length-code_word;
      small = omega (arith, length-code_word, v.fits);
      filled = omega arith;
      even = λ i h.
          length-get_or 1200 i code_word
            (All-append (HasLength 1200) (to_data_shards frame) coded.0
              (to_data_shards-HasLength frame) coded.3)
            h;
    }

    pub sent-reads :
        fi < 2 ^ 32
        → ArePackets rs fi k code_word (data_count frame) (parity_count fl frame fec) 1200 (λ i.
          get_or
            (wire
              (length code_word)
              (data_count frame)
              fi
              ts
              (Flags.encode_simple k)
              0x42
              pz.sequence
              0
              code_word)
            i
            [])
    sent-reads hfi i h = rw (zero-add i) at (
        wire-reads (length code_word) (data_count frame) fi ts (Flags.encode_simple k) 0x42
          code_word pz.sequence 0 i
          (record {
            frame_index = hfi;
            shard_index = omega (arith, length-code_word, v.fits);
            shard_count = omega (arith, length-code_word, v.fits);
            flags = omega (arith, encode_simple-lt k);
            data_shard_count = omega (arith, v.fits);
          })
          h)

    pub whole_frame-padded :
        whole_frame fi k code_word (data_count frame) 1200 ≡ padded_frame frame fi k
    whole_frame-padded =
        ap (λ bytes. record { frame_index = fi; is_keyframe = k; frame_data = bytes })
          (ap concat (take-append_left (to_data_shards frame) coded.0)
            ∙ concat-to_data_shards frame)

    pub feed_all-encode_frame :
        (r : Reassembler) (is : List ℕ)
        → fi < 2 ^ 32
        → IsOther fi r
        → All (λ i. i < (data_count frame) + (parity_count fl frame fec)) is
        → (length (encode_frame_to_packets_with_fec fl rs frame fi ts k fec pz).0
            ≡ (data_count frame) + (parity_count fl frame fec))
          × ((feed_all rs r (
                map
                  (λ i. get_or (encode_frame_to_packets_with_fec fl rs frame fi ts k fec pz).0 i [])
                  is)).1
              ≡ (if leb (data_count frame) (
                    count_true (
                      mark (replicate ((data_count frame) + (parity_count fl frame fec)) false) is))
                  then padded_frame frame fi k ∷ []
                  else []))
    feed_all-encode_frame r is hfi other his = rw sent-packets (
      length-wire (length code_word) (data_count frame) fi ts (Flags.encode_simple k) 0x42 code_word
            pz.sequence 0
          ∙ length-code_word,
      rw (← length-code_word, ← whole_frame-padded)
          (feed_all-other rs fi k code_word (data_count frame) (parity_count fl frame fec) 1200 _
            (sent-reads hfi) code_word-IsSent v.accepts coded.4 is r (rw length-code_word his)
            other),
    )
