-- ===== src/Rtp/HeaderLaws.antt =====
-- What a receiver reads from a packet that the header writers have started.
use focus_vision_pcvr.Prelude.{
  ℕ, ◌+◌, ◌≡◌, refl, Bool, true, false, some, List, [], ◌++◌, arith, length, drop, get_or,
}
use focus_vision_pcvr.Prelude.Words.{from_le_bytes-to_le_bytes}
use focus_vision_pcvr.Rtp.Header.{
  FvpHeader, IsHeader, write_rtp_header, write_fvp_header, read_fvp_header, marker_bit, rtp_pt_h265,
}

-- The packet that a sender builds: both headers, then the payload.
abbrev pub packet : ℕ → Bool → ℕ → ℕ → ℕ → FvpHeader → List ℕ → List ℕ
packet pt m seq ts ssrc h payload =
    write_fvp_header (write_rtp_header [] pt m seq ts ssrc) h.frame_index h.shard_index
      h.shard_count h.flags h.data_shard_count
    ++ payload

module _ (pt : ℕ) (m : Bool) (seq ts ssrc : ℕ) (h : FvpHeader) (payload : List ℕ) where
  pub length-packet : length (packet pt m seq ts ssrc h payload) ≡ length payload + 24
  unfolding write_rtp_header write_fvp_header
  length-packet = omega arith

  -- A header whose fields fit their words is read back from the packet that both header writers have
  -- started, whatever its RTP fields and its payload.
  pub read-packet : IsHeader h → read_fvp_header (packet pt m seq ts ssrc h payload) ≡ some h
  unfolding write_rtp_header write_fvp_header read_fvp_header
  read-packet v = ground (
    arith,
    from_le_bytes-to_le_bytes 4 h.frame_index,
    from_le_bytes-to_le_bytes 2 h.shard_index,
    from_le_bytes-to_le_bytes 2 h.shard_count,
    from_le_bytes-to_le_bytes 2 h.flags,
    from_le_bytes-to_le_bytes 2 h.data_shard_count,
  )

  pub payload-packet : drop 24 (packet pt m seq ts ssrc h payload) ≡ payload
  unfolding write_rtp_header write_fvp_header
  payload-packet = refl

-- The second byte carries the marker, beside the payload type that every sender uses.
pub marker-packet :
    (m : Bool) (seq ts ssrc : ℕ) (h : FvpHeader) (payload : List ℕ)
    → marker_bit (get_or (packet rtp_pt_h265 m seq ts ssrc h payload) 1 0) ≡ m
unfolding write_rtp_header write_fvp_header marker_bit
marker-packet true seq ts ssrc h payload = refl
marker-packet false seq ts ssrc h payload = refl
