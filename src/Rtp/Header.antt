-- ===== src/Rtp/Header.antt =====
-- The two headers of a video packet, as rtp.rs writes and reads them, and the sizes of
-- rust/common/src/constants.rs. A writer appends to a buffer.
use focus_vision_pcvr.Prelude.{
  ℕ, ◌-◌, ◌^◌, ◌<◌, Bool, not, ◌&&◌, Option, none, some, List, [], ◌∷◌, ◌++◌, bit_and, bit_or,
  length, take, drop, ltb, leb, ◌==◌, if◌then◌else◌,
}
use focus_vision_pcvr.Prelude.Words.{to_le_bytes, to_be_bytes, le_at}

abbrev pub mtu_size : ℕ
mtu_size = 1400

abbrev pub fec_shard_size : ℕ
fec_shard_size = 1200

abbrev pub rtp_header_len : ℕ
rtp_header_len = 12

abbrev pub packet_header_len : ℕ
packet_header_len = 24

abbrev pub max_frame_shards : ℕ
max_frame_shards = 4096

abbrev pub rtp_pt_h265 : ℕ
rtp_pt_h265 = 97

-- `MAX_PAYLOAD`
abbrev pub max_payload : ℕ
max_payload = mtu_size - packet_header_len

pub record FvpHeader : Type 0 where
  pub frame_index : ℕ
  pub shard_index : ℕ
  pub shard_count : ℕ
  pub flags : ℕ
  pub data_shard_count : ℕ

-- Each field in the range of its machine type.
pub record IsHeader (h : FvpHeader) : Type 0 where
  pub frame_index : h.frame_index < 256 ^ 4
  pub shard_index : h.shard_index < 256 ^ 2
  pub shard_count : h.shard_count < 256 ^ 2
  pub flags : h.flags < 256 ^ 2
  pub data_shard_count : h.data_shard_count < 256 ^ 2

unfoldable pub write_rtp_header : List ℕ → ℕ → Bool → ℕ → ℕ → ℕ → List ℕ
write_rtp_header buf payload_type marker sequence timestamp ssrc =
    let mpt =
      if marker then bit_or 0x80 (bit_and payload_type 0x7f) else bit_and payload_type 0x7f in
    ((((buf ++ (0x80 ∷ [])) ++ (mpt ∷ [])) ++ to_be_bytes 2 sequence) ++ to_be_bytes 4 timestamp)
    ++ to_be_bytes 4 ssrc

unfoldable pub write_fvp_header : List ℕ → ℕ → ℕ → ℕ → ℕ → ℕ → List ℕ
write_fvp_header buf frame_index shard_index shard_count flags data_shard_count =
    ((((buf ++ to_le_bytes 4 frame_index) ++ to_le_bytes 2 shard_index)
        ++ to_le_bytes 2 shard_count)
      ++ to_le_bytes 2 flags)
    ++ to_le_bytes 2 data_shard_count

unfoldable pub is_keyframe : FvpHeader → Bool
is_keyframe h = not (bit_and h.flags 1 == 0)

unfoldable pub is_valid : FvpHeader → Bool
is_valid h =
    ltb 0 h.shard_count
    && leb h.shard_count max_frame_shards
    && ltb h.shard_index h.shard_count
    && ltb 0 h.data_shard_count
    && leb h.data_shard_count h.shard_count

unfoldable pub read_fvp_header : List ℕ → Option FvpHeader
read_fvp_header packet =
    if ltb (length packet) packet_header_len
    then none
    else (let f = take (packet_header_len - rtp_header_len) (drop rtp_header_len packet) in
        some (record {
          frame_index = le_at 4 0 f;
          shard_index = le_at 2 4 f;
          shard_count = le_at 2 6 f;
          flags = le_at 2 8 f;
          data_shard_count = le_at 2 10 f;
        }))

-- The marker bit that the receiver reads from byte 1.
unfoldable pub marker_bit : ℕ → Bool
marker_bit b = not (bit_and b 0x80 == 0)
