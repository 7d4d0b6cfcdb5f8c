-- ===== src/Slice/Tests.antt =====
-- The slicing theorems at concrete inputs.
use focus_vision_pcvr.Prelude.{ℕ, ◌≡◌, List, [], ◌∷◌, concat}
use focus_vision_pcvr.Slice.{split}
use focus_vision_pcvr.Slice.Laws.{concat-split}

abbrev five_bytes : List ℕ
five_bytes = 1 ∷ 2 ∷ 3 ∷ 4 ∷ 5 ∷ []

concat-split_example : concat (split five_bytes 3) ≡ five_bytes
concat-split_example = concat-split five_bytes 3
