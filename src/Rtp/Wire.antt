-- ===== src/Rtp/Wire.antt =====
-- The packets of a list of shards, one after the other, as the receiver reads them.
use focus_vision_pcvr.Prelude.{
  ℕ, zero, suc, ◌+◌, ◌-◌, ◌%◌, ◌^◌, ◌<◌, ◌≡◌, refl, ap, List, [], ◌∷◌, arith, length, get_or, ◌==◌,
  drop, some,
}
use focus_vision_pcvr.Rtp.Header.{
  FvpHeader, IsHeader, rtp_pt_h265, read_fvp_header, packet_header_len,
}
use focus_vision_pcvr.Rtp.HeaderLaws.{packet, read-packet, payload-packet}
use focus_vision_pcvr.Rtp.Packetizer.{RtpPacket}

module _ (total d fi ts flags ssrc : ℕ) where
  abbrev pub shard_header : ℕ → FvpHeader
  shard_header i = record {
    frame_index = fi;
    shard_index = i;
    shard_count = total;
    flags = flags;
    data_shard_count = d;
  }

  -- The packets from shard `i` on, the next sequence number being `seq`.
  abbrev pub wire : ℕ → ℕ → List (List ℕ) → List RtpPacket
  wire seq i [] = []
  wire seq i (shard ∷ rest) =
      packet rtp_pt_h265 (i == total - 1) seq ts ssrc (shard_header i) shard
      ∷ wire ((seq + 1) % 2 ^ 16) (i + 1) rest

  -- The packet at a place carries the header of that place and the shard of that place.
  pub wire-reads :
      (shards : List (List ℕ)) (seq i j : ℕ)
      → IsHeader (shard_header (i + j))
      → j < length shards
      → (read_fvp_header (get_or (wire seq i shards) j []) ≡ some (shard_header (i + j)))
        × (drop packet_header_len (get_or (wire seq i shards) j []) ≡ get_or shards j [])
  wire-reads [] seq i j ok h = absurd (omega arith)
  wire-reads (shard ∷ rest) seq i zero ok h =
      let e : i + zero ≡ i = omega arith in
      rw e (
        read-packet rtp_pt_h265 (i == total - 1) seq ts ssrc (shard_header i) shard (rw e at ok),
        payload-packet rtp_pt_h265 (i == total - 1) seq ts ssrc (shard_header i) shard,
      )
  wire-reads (shard ∷ rest) seq i (suc j) ok h =
      let e : i + suc j ≡ i + 1 + j = omega arith in
      rw e (wire-reads rest ((seq + 1) % 2 ^ 16) (i + 1) j (rw e at ok) (omega arith))

  pub length-wire :
      (shards : List (List ℕ)) (seq i : ℕ) → length (wire seq i shards) ≡ length shards
  length-wire [] seq i = refl
  length-wire (shard ∷ rest) seq i = ap suc (length-wire rest ((seq + 1) % 2 ^ 16) (i + 1))
