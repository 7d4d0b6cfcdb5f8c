-- ===== src/Pipeline/Layout.antt =====
-- How a frame is split into Reed-Solomon code words: `FecLayout` and `choose_fec_layout` of
-- pipeline.rs.
use focus_vision_pcvr.Prelude.{
  ℕ, zero, suc, ◌+◌, ◌-◌, ◌/◌, min, max, Bool, not, ◌&&◌, leb, if◌then◌else◌,
}
use focus_vision_pcvr.Protocol.Flags.{max_slice_count}
use focus_vision_pcvr.Rtp.Header.{fec_shard_size}

abbrev pub min_slice_size : ℕ
min_slice_size = 16384

abbrev pub slice_len_prefix : ℕ
slice_len_prefix = 4

pub data FecLayout : Type 0 where
  bulk : FecLayout
  sliced : ℕ → FecLayout
  unprotected : FecLayout

-- `a.div_ceil(b)`, for `b` above 0.
abbrev pub div_ceil : ℕ → ℕ → ℕ
div_ceil a b = (a + (b - 1)) / b

unfoldable pub slice_data_shards : ℕ → ℕ
slice_data_shards slice_len = div_ceil (slice_len + slice_len_prefix) fec_shard_size

-- `(n..=MAX_SLICE_COUNT).find(fits)`, with `rounds` counts left to try.
unfoldable pub find_slice_count : ℕ → ℕ → ℕ → ℕ → FecLayout
find_slice_count frame_len max_data_shards zero n = unprotected
find_slice_count frame_len max_data_shards (suc rounds) n =
    let rest = find_slice_count frame_len max_data_shards rounds (n + 1) in
    if leb (slice_data_shards (div_ceil frame_len n)) max_data_shards then sliced n else rest

unfoldable pub choose_fec_layout : ℕ → Bool → ℕ → ℕ → FecLayout
choose_fec_layout frame_len slice_fec_enabled slice_count max_data_shards =
    let slice = slice_fec_enabled && leb min_slice_size frame_len in
    if not slice && leb (div_ceil frame_len fec_shard_size) max_data_shards
    then bulk
    else (let from = if slice then min (max slice_count 1) max_slice_count else 1 in
        find_slice_count frame_len max_data_shards (max_slice_count + 1 - from) from)
