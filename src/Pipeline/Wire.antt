-- ===== src/Pipeline/Wire.antt =====
-- The packets that the sender writes for one code word, as the receiver reads them.
use focus_vision_pcvr.Prelude.{
  ℕ, ◌+◌, ◌-◌, ◌%◌, ◌^◌, ◌≤◌, ◌<◌, ◌≡◌, refl, List, [], ◌∷◌, arith, length, ◌==◌,
}
use focus_vision_pcvr.Rtp.Header.{rtp_pt_h265}
use native.Mathlib.Nat.{mod-eq_of_lt}
use focus_vision_pcvr.Rtp.Buffers.{take_buf_lem}
use focus_vision_pcvr.Rtp.HeaderLaws.{packet}
use focus_vision_pcvr.Rtp.Wire.{wire, shard_header}
use focus_vision_pcvr.Rtp.Packetizer.{RtpPacketizer}
use focus_vision_pcvr.Fec.Codec.{Shard}
use focus_vision_pcvr.Pipeline.Encode.{shard_packet, shard_packets}

module _ (total d fi ts flags : ℕ) where
  shard_packet-wire :
      (p : RtpPacketizer) (i : ℕ) (shard : Shard)
      → total < 2 ^ 16
      → d < 2 ^ 16
      → i < 2 ^ 16
      → ((shard_packet total d fi ts flags p i shard).0
          ≡ packet rtp_pt_h265
              (i == total - 1)
              p.sequence
              ts
              0x42
              (shard_header total d fi ts flags 0x42 i)
              shard)
        × ((shard_packet total d fi ts flags p i shard).1.sequence ≡ (p.sequence + 1) % 2 ^ 16)
  unfolding shard_packet
  shard_packet-wire p i shard ht hd hi =
      rw
        (
          (take_buf_lem (record p { sequence = (p.sequence + 1) % 2 ^ 16 })).0,
          (take_buf_lem (record p { sequence = (p.sequence + 1) % 2 ^ 16 })).1,
          mod-eq_of_lt ht,
          mod-eq_of_lt hd,
          mod-eq_of_lt hi,
        )
        (refl, refl)

  pub shard_packets-wire :
      (shards : List Shard) (p : RtpPacketizer) (i : ℕ)
      → total < 2 ^ 16
      → d < 2 ^ 16
      → i + length shards ≤ total
      → (shard_packets total d fi ts flags p i shards).0
        ≡ wire total d fi ts flags 0x42 p.sequence i shards
  unfolding shard_packets
  shard_packets-wire [] p i ht hd h = refl
  shard_packets-wire (shard ∷ rest) p i ht hd h =
      let one = shard_packet-wire p i shard ht hd (omega arith) in
      rw (
        one.0,
        shard_packets-wire rest (shard_packet total d fi ts flags p i shard).1 (i + 1) ht hd
            (omega arith),
        one.1,
      )
