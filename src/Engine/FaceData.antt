-- ===== src/Engine/FaceData.antt =====
-- `parse_face_data` of face_tracking/osc_bridge.rs: the floats, as bit patterns, of a FACE_DATA message.
use focus_vision_pcvr.Prelude.{
  ℕ, zero, suc, ◌+◌, ◌*◌, Bool, not, Option, none, some, List, [], ◌∷◌, length, get_or, ltb, ◌==◌,
  if◌then◌else◌,
}
use focus_vision_pcvr.Prelude.Words.{le_at}

abbrev pub lip_count : ℕ
lip_count = 37

abbrev pub eye_count : ℕ
eye_count = 14

pub record FaceData : Type 0 where
  pub lip_valid : Bool
  pub eye_valid : Bool
  pub lip : List ℕ
  pub eye : List ℕ

-- `n` floats from an offset on.
unfoldable pub floats_at : ℕ → ℕ → List ℕ → List ℕ
floats_at zero off payload = []
floats_at (suc n) off payload = le_at 4 off payload ∷ floats_at n (off + 4) payload

unfoldable pub parse_face_data : List ℕ → Option FaceData
unfolding floats_at
parse_face_data payload =
    if ltb (length payload) 206
    then none
    else some (record {
      lip_valid = not (get_or payload 0 0 == 0);
      eye_valid = not (get_or payload 1 0 == 0);
      lip = floats_at lip_count 2 payload;
      eye = floats_at eye_count (2 + lip_count * 4) payload;
    })
