-- ===== src/Sleep/Tests.antt =====
-- The detector's theorem at a concrete input.
use focus_vision_pcvr.Prelude.{ℕ, true, false, [], ◌∷◌}
use focus_vision_pcvr.Sleep
use focus_vision_pcvr.Sleep.{Position, SleepDetector}
use focus_vision_pcvr.Sleep.Transitions.{
  sample, button, take_inputs, Alternates, take_inputs-Alternates,
}

abbrev origin : Position
origin = record { x = 0; y = 0; z = 0 }

-- It sleeps at the first sample without motion.
abbrev hasty : SleepDetector
hasty = Sleep.new true 0x3c23_d70a 0 8

abbrev still : Position → Position → ℕ
still p q = 0

take_inputs-Alternates_example :
    Alternates false (take_inputs still (sample origin ∷ button ∷ sample origin ∷ []) hasty).1
unfolding Sleep.new
take_inputs-Alternates_example =
    take_inputs-Alternates still (sample origin ∷ button ∷ sample origin ∷ []) hasty
