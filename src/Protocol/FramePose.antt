-- ===== src/Protocol/FramePose.antt =====
-- `frame_pose` of protocol.rs: the orientation at the start of a frame. A float is its bit pattern.
use focus_vision_pcvr.Prelude.{
  ℕ, ◌^◌, ◌<◌, ◌≡◌, Bool, not, ◌&&◌, ◌||◌, Option, none, some, List, ◌∷◌, ◌++◌, bit_and, arith,
  length, get_or, drop, replicate, ltb, ◌==◌, if◌then◌else◌,
}
use focus_vision_pcvr.Prelude.Words.{to_le_bytes, le_at, from_le_bytes-to_le_bytes}
use focus_vision_pcvr.Prelude.F32.{is_finite}

-- `LEN`
abbrev pub len : ℕ
len = 20

pub record Orientation : Type 0 where
  pub x : ℕ
  pub y : ℕ
  pub z : ℕ
  pub w : ℕ

abbrev pub IsOrientation : Orientation → Type 0
IsOrientation q = (q.x < 2 ^ 32) × (q.y < 2 ^ 32) × (q.z < 2 ^ 32) × (q.w < 2 ^ 32)

-- "FP", the version, then the flags.
unfoldable pub encode : Option Orientation → List ℕ
encode none = 0x46 ∷ 0x50 ∷ 1 ∷ 0 ∷ replicate 16 0
encode (some q) =
    0x46
    ∷ 0x50
    ∷ 1
    ∷ 1
    ∷ (to_le_bytes 4 q.x ++ (to_le_bytes 4 q.y ++ (to_le_bytes 4 q.z ++ to_le_bytes 4 q.w)))

unfoldable pub all_finite : Orientation → Bool
all_finite q = is_finite q.x && is_finite q.y && is_finite q.z && is_finite q.w

-- `then_some`
abbrev pub if_finite : Orientation → Option Orientation
if_finite q = if all_finite q then some q else none

unfoldable pub parse : List ℕ → Option (Option Orientation × List ℕ)
unfolding all_finite
parse frame =
    if ltb (length frame) len
      || not ((get_or frame 0 0 == 0x46) && (get_or frame 1 0 == 0x50))
      || not (get_or frame 2 0 == 1)
    then none
    else (if bit_and (get_or frame 3 0) 1 == 0
        then some (none, drop len frame)
        else some (
          if_finite (record {
            x = le_at 4 4 frame;
            y = le_at 4 8 frame;
            z = le_at 4 12 frame;
            w = le_at 4 16 frame;
          }),
          drop len frame,
        ))

parse-encode_unknown : (body : List ℕ) → parse (encode none ++ body) ≡ some (none, body)
unfolding parse encode
parse-encode_unknown body = ground arith

parse-encode_known :
    (q : Orientation) (body : List ℕ)
    → IsOrientation q
    → parse (encode (some q) ++ body) ≡ some (if_finite q, body)
unfolding parse encode
parse-encode_known q body h = ground (
  arith,
  from_le_bytes-to_le_bytes 4 q.x (omega (arith, h)),
  from_le_bytes-to_le_bytes 4 q.y (omega (arith, h)),
  from_le_bytes-to_le_bytes 4 q.z (omega (arith, h)),
  from_le_bytes-to_le_bytes 4 q.w (omega (arith, h)),
)

abbrev pub IsGiven : Option Orientation → Type 0
IsGiven none = Unit
IsGiven (some q) = IsOrientation q

-- What a receiver makes of it.
abbrev pub kept : Option Orientation → Option Orientation
kept none = none
kept (some q) = if_finite q

-- Whatever the frame's data is, it is read back behind the prefix: with the orientation that was given,
-- of four 32-bit words, if its floats are finite, and with none otherwise or where none was given.
pub parse-encode :
    (orientation : Option Orientation) (body : List ℕ)
    → IsGiven orientation
    → parse (encode orientation ++ body) ≡ some (kept orientation, body)
parse-encode none body h = parse-encode_unknown body
parse-encode (some q) body h = parse-encode_known q body h
