-- ===== src/Protocol/ViewConfig.antt =====
-- VIEW_CONFIG of protocol.rs: the fields of view and the distance between the eyes. A float is its bit
-- pattern.
use focus_vision_pcvr.Prelude.{
  ℕ, ◌+◌, ◌^◌, ◌<◌, ◌≡◌, refl, Bool, false, ◌&&◌, Option, none, some, List, ◌++◌, arith, length,
  ltb, if◌then◌else◌,
}
use focus_vision_pcvr.Prelude.Words.{to_le_bytes, le_at, from_le_bytes-to_le_bytes}
use focus_vision_pcvr.Prelude.F32.{is_finite, abs, lt, le}

pub record EyeFov : Type 0 where
  pub left : ℕ
  pub right : ℕ
  pub up : ℕ
  pub down : ℕ

pub record ViewConfig : Type 0 where
  pub left_eye : EyeFov
  pub right_eye : EyeFov
  pub ipd_m : ℕ

abbrev pub view_config_payload_len : ℕ
view_config_payload_len = 36

-- 85 degrees in radians.
abbrev pub max_fov_half_angle : ℕ
max_fov_half_angle = 0x3fbd_e44e

-- 0.040 and 0.090 metres.
abbrev pub min_ipd : ℕ
min_ipd = 0x3d23_d70a

abbrev pub max_ipd : ℕ
max_ipd = 0x3db8_51ec

unfoldable pub encode_view_config : ViewConfig → List ℕ
encode_view_config c =
    to_le_bytes 4 c.left_eye.left
    ++ (to_le_bytes 4 c.left_eye.right
        ++ (to_le_bytes 4 c.left_eye.up
            ++ (to_le_bytes 4 c.left_eye.down
                ++ (to_le_bytes 4 c.right_eye.left
                    ++ (to_le_bytes 4 c.right_eye.right
                        ++ (to_le_bytes 4 c.right_eye.up
                            ++ (to_le_bytes 4 c.right_eye.down ++ to_le_bytes 4 c.ipd_m)))))))

unfoldable pub plausible_angle : ℕ → Bool
plausible_angle a = is_finite a && lt (abs a) max_fov_half_angle

unfoldable pub plausible_eye : EyeFov → Bool
unfolding plausible_angle
plausible_eye e =
    (plausible_angle e.left
      && plausible_angle e.right
      && plausible_angle e.up
      && plausible_angle e.down)
    && lt e.left e.right
    && lt e.down e.up

unfoldable pub plausible_ipd : ℕ → Bool
plausible_ipd m = is_finite m && le min_ipd m && le m max_ipd

unfoldable pub plausible : ViewConfig → Bool
plausible c = (plausible_eye c.left_eye && plausible_eye c.right_eye) && plausible_ipd c.ipd_m

abbrev eye_at : List ℕ → ℕ → EyeFov
eye_at payload base = record {
  left = le_at 4 base payload;
  right = le_at 4 (base + 4) payload;
  up = le_at 4 (base + 8) payload;
  down = le_at 4 (base + 12) payload;
}

unfoldable pub read_fields : List ℕ → ViewConfig
read_fields payload = record {
  left_eye = eye_at payload 0;
  right_eye = eye_at payload 16;
  ipd_m = le_at 4 32 payload;
}

unfoldable pub parse_view_config : List ℕ → Option ViewConfig
parse_view_config payload =
    if ltb (length payload) view_config_payload_len
    then none
    else (let config = read_fields payload in if plausible config then some config else none)

abbrev pub IsEye : EyeFov → Type 0
IsEye e = (e.left < 2 ^ 32) × (e.right < 2 ^ 32) × (e.up < 2 ^ 32) × (e.down < 2 ^ 32)

abbrev pub IsViewConfig : ViewConfig → Type 0
IsViewConfig c = IsEye c.left_eye × IsEye c.right_eye × (c.ipd_m < 2 ^ 32)

-- The fields are read back, whatever follows them.
read-encode_view_config :
    (c : ViewConfig) (more : List ℕ)
    → IsViewConfig c
    → read_fields (encode_view_config c ++ more) ≡ c
unfolding encode_view_config read_fields
read-encode_view_config c more h =
    rw
      (
        from_le_bytes-to_le_bytes 4 c.left_eye.left (omega (arith, h)),
        from_le_bytes-to_le_bytes 4 c.left_eye.right (omega (arith, h)),
        from_le_bytes-to_le_bytes 4 c.left_eye.up (omega (arith, h)),
        from_le_bytes-to_le_bytes 4 c.left_eye.down (omega (arith, h)),
        from_le_bytes-to_le_bytes 4 c.right_eye.left (omega (arith, h)),
        from_le_bytes-to_le_bytes 4 c.right_eye.right (omega (arith, h)),
        from_le_bytes-to_le_bytes 4 c.right_eye.up (omega (arith, h)),
        from_le_bytes-to_le_bytes 4 c.right_eye.down (omega (arith, h)),
        from_le_bytes-to_le_bytes 4 c.ipd_m (omega (arith, h)),
      )
      refl

long_enough :
    (c : ViewConfig) (more : List ℕ)
    → ltb (length (encode_view_config c ++ more)) view_config_payload_len ≡ false
unfolding encode_view_config
long_enough c more = ground arith

-- A view configuration of 32-bit words is accepted exactly when it is plausible, and then it is read
-- back as it was sent, whatever bytes follow it.
pub parse-encode_view_config :
    (c : ViewConfig) (more : List ℕ)
    → IsViewConfig c
    → parse_view_config (encode_view_config c ++ more) ≡ (if plausible c then some c else none)
unfolding parse_view_config
parse-encode_view_config c more h = rw (long_enough c more, read-encode_view_config c more h) refl
