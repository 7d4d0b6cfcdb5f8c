-- ===== src/Control/StreamConfig.antt =====
-- The STREAM_CONFIG payload of control/tcp_server.rs, with `compute_encoded_dims` of config.rs. Floats
-- are their bit patterns; the product of a dimension with a scale, rounded to an integer, is a
-- parameter.
use focus_vision_pcvr.Prelude.{
  ℕ, ◌+◌, ◌*◌, ◌/◌, ◌^◌, ◌-◌, min, max, not, ◌&&◌, List, [], ◌∷◌, ◌++◌, bit_and, ◌==◌,
  if◌then◌else◌,
}
use focus_vision_pcvr.Prelude.Words.{to_le_bytes}
use focus_vision_pcvr.Prelude.F32.{lt}

pub data VideoCodec : Type 0 where
  h264 : VideoCodec
  h265 : VideoCodec

-- The fields of `[video]` that the payload takes.
pub record VideoConfig : Type 0 where
  pub render_w : ℕ
  pub render_h : ℕ
  pub bitrate_mbps : ℕ
  pub framerate : ℕ
  pub codec : VideoCodec
  pub resolution_scale : ℕ

abbrev pub resolution_scale_cap : ℕ
resolution_scale_cap = 0x01

abbrev pub frame_pose_cap : ℕ
frame_pose_cap = 0x02

abbrev pub side_by_side : ℕ
side_by_side = 1

abbrev f32_one : ℕ
f32_one = 0x3f80_0000

unfoldable pub codec_byte : VideoCodec → ℕ
codec_byte h264 = 0
codec_byte h265 = 1

unfoldable pub round_to_align : ℕ → ℕ → ℕ
round_to_align v align = max (min (v + align / 2) (2 ^ 32 - 1) / align * align) align

-- `scale.clamp(0.0, 1.0)`
unfoldable pub clamp_scale : ℕ → ℕ
clamp_scale s = if lt s 0 then 0 else (if lt f32_one s then f32_one else s)

module _ (scaled : ℕ → ℕ → ℕ) where
  unfoldable pub compute_encoded_dims : ℕ → ℕ → ℕ → ℕ → ℕ × ℕ
  unfolding round_to_align clamp_scale
  compute_encoded_dims render_w render_h scale align = (
    round_to_align (scaled render_w (clamp_scale scale)) align,
    round_to_align (scaled render_h (clamp_scale scale)) align,
  )

  -- The dimensions that are encoded: the native ones, unless the client can scale and it is asked for.
  unfoldable pub encoded_dims : VideoConfig → ℕ → ℕ × ℕ
  unfolding compute_encoded_dims
  encoded_dims v client_caps =
      if not (bit_and client_caps resolution_scale_cap == 0) && lt v.resolution_scale f32_one
      then compute_encoded_dims v.render_w v.render_h v.resolution_scale 2
      else (v.render_w, v.render_h)

  unfoldable pub encode_stream_config : VideoConfig → ℕ → List ℕ
  unfolding encoded_dims codec_byte
  encode_stream_config v client_caps =
      let dims = encoded_dims v client_caps in
      let pose : ℕ = if not (bit_and client_caps frame_pose_cap == 0) then 1 else 0 in
      to_le_bytes 4 v.render_w
      ++ (to_le_bytes 4 v.render_h
          ++ (to_le_bytes 4 v.bitrate_mbps
              ++ (to_le_bytes 4 v.framerate
                  ++ (codec_byte v.codec
                      ∷ (to_le_bytes 4 dims.0
                          ++ (to_le_bytes 4 dims.1 ++ (side_by_side ∷ pose ∷ [])))))))
