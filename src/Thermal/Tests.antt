-- ===== src/Thermal/Tests.antt =====
-- The governor's theorem at concrete inputs.
use focus_vision_pcvr.Prelude.{ℕ, refl, true, Option, none, some, List, [], ◌∷◌}
use focus_vision_pcvr.Prelude.F64.{Arithmetic, one, is_nan}
use focus_vision_pcvr.Thermal.{ThermalConfig, new}
use focus_vision_pcvr.Thermal.Within.{IsGoverned, RampsUp, DividesToNumber, ticks, ticks-IsGoverned}

-- A recovery that stays where it starts.
abbrev flat : Arithmetic
flat = record {
  of_nat = λ n. one;
  of_i32 = λ n. one;
  add = λ x y. x;
  sub = λ x y. x;
  mul = λ x y. x;
  div = λ x y. one;
}

flat-RampsUp : RampsUp flat
flat-RampsUp start progress h k = h

flat-DividesToNumber : DividesToNumber flat (λ t. one)
unfolding is_nan
flat-DividesToNumber elapsed seconds = refl

abbrev config : ThermalConfig
config = record {
  enabled = true;
  poll_interval_seconds = 5;
  warn_celsius = 75;
  limit_celsius = 85;
  emergency_celsius = 90;
  recovery_seconds = 30;
}

-- Hot, an emergency, no reading, hot again, and cool.
abbrev readings : List (ℕ × Option ℕ)
readings =
    (5_000_000, some 86)
    ∷ (10_000_000, some 91)
    ∷ (15_000_000, none)
    ∷ (20_000_000, some 86)
    ∷ (25_000_000, some 60)
    ∷ []

ticks-IsGoverned_example : IsGoverned (ticks flat (λ t. one) readings (new config))
ticks-IsGoverned_example =
    ticks-IsGoverned flat (λ t. one) flat-RampsUp flat-DividesToNumber readings config
