-- ===== src/Protocol/Flags.antt =====
-- `fvp_flags` of protocol.rs: the 16-bit flags of a video packet.
use focus_vision_pcvr.Prelude.{
  ℕ, ◌*◌, ◌/◌, ◌^◌, ◌%◌, Bool, not, bit_and, bit_or, leb, ◌==◌, if◌then◌else◌,
}

abbrev pub keyframe : ℕ
keyframe = 1

abbrev pub slice_index_mask : ℕ
slice_index_mask = 0b1_1110

abbrev pub slice_count_mask : ℕ
slice_count_mask = 0b1_1110_0000

abbrev pub stream_id_mask : ℕ
stream_id_mask = 0b110_0000_0000

abbrev pub max_slice_count : ℕ
max_slice_count = 15

unfoldable pub encode_simple : Bool → ℕ
encode_simple is_keyframe = if is_keyframe then keyframe else 0

-- `x << n` for a 16-bit word.
abbrev shl : ℕ → ℕ → ℕ
shl x n = x * 2 ^ n % 2 ^ 16

unfoldable pub encode : Bool → ℕ → ℕ → ℕ → ℕ
encode is_keyframe slice_index slice_count stream_id =
    let flags₀ : ℕ = if is_keyframe then bit_or 0 keyframe else 0 in
    let flags₁ = bit_or flags₀ (shl (bit_and slice_index 0xf) 1) in
    let flags₂ = bit_or flags₁ (shl (bit_and slice_count 0xf) 5) in
    bit_or flags₂ (shl (bit_and stream_id 0x3) 9)

unfoldable pub encode_compat : ℕ → Bool → ℕ → ℕ → ℕ → ℕ
encode_compat negotiated_version is_keyframe slice_index slice_count stream_id =
    if leb 3 negotiated_version
    then encode is_keyframe slice_index slice_count stream_id
    else encode_simple is_keyframe

unfoldable pub is_keyframe : ℕ → Bool
is_keyframe flags = not (bit_and flags keyframe == 0)

unfoldable pub slice_index : ℕ → ℕ
slice_index flags = bit_and flags slice_index_mask / 2 ^ 1 % 256

unfoldable pub slice_count : ℕ → ℕ
slice_count flags = bit_and flags slice_count_mask / 2 ^ 5 % 256

unfoldable pub stream_id : ℕ → ℕ
stream_id flags = bit_and flags stream_id_mask / 2 ^ 9 % 256
