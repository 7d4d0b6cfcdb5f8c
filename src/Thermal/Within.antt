-- ===== src/Thermal/Within.antt =====
-- The multiplier stays between one half and one, and the invariant behind it.
use focus_vision_pcvr.Prelude.{
  ℕ, ◌-◌, ◌≡◌, refl, Bool, true, false, not, ◌&&◌, Option, none, some, List, [], ◌∷◌, leb, max,
  is_none, Bool-cases, inl, inr, if◌then◌else◌,
}
use focus_vision_pcvr.Prelude.F64.{Arithmetic, one, lt, ge, is_nan}
use focus_vision_pcvr.Thermal.{
  limit_multiplier, emergency_multiplier, almost_one, ThermalConfig, Recovery, ThermalGovernor, new,
  clamp_unit, too_early, begin_recovery, ramp, recover, on_temperature, on_reading, tick_at,
}

-- A number in a range of doubles.
abbrev pub IsBetween : ℕ → ℕ → ℕ → Type 0
IsBetween lo hi x = (is_nan x ≡ false) × (lt x lo ≡ false) × (lt hi x ≡ false)

-- At least one half and at most one.
abbrev pub IsCap : ℕ → Type 0
IsCap m = IsBetween emergency_multiplier one m

-- A ramp from a cap is a cap, at any progress from zero to one.
abbrev pub RampsUp : Arithmetic → Type 0
RampsUp fl =
    (start progress : ℕ)
    → IsCap start
    → IsBetween 0 one progress
    → IsCap (fl.add start (fl.mul (fl.sub one start) progress))

-- A time over a number of seconds that is not zero is a number.
abbrev pub DividesToNumber : Arithmetic → (ℕ → ℕ) → Type 0
DividesToNumber fl as_secs =
    (elapsed seconds : ℕ) → is_nan (fl.div (as_secs elapsed) (fl.of_nat (max seconds 1))) ≡ false

abbrev pub IsRecovery : Option Recovery → Type 0
IsRecovery none = Unit
IsRecovery (some r) = IsCap r.start_multiplier

pub record IsGoverned (g : ThermalGovernor) : Type 0 where
  pub cap : IsCap g.last_multiplier
  pub ramping : IsRecovery g.recovery

one-IsCap : IsCap one
unfolding lt is_nan
one-IsCap = (refl, refl, refl)

limit-IsCap : IsCap limit_multiplier
unfolding lt is_nan
limit-IsCap = (refl, refl, refl)

emergency-IsCap : IsCap emergency_multiplier
unfolding lt is_nan
emergency-IsCap = (refl, refl, refl)

zero-IsBetween : IsBetween 0 one 0
unfolding lt is_nan
zero-IsBetween = (refl, refl, refl)

one-IsBetween : IsBetween 0 one one
unfolding lt is_nan
one-IsBetween = (refl, refl, refl)

clamp_unit-IsBetween : (x : ℕ) → is_nan x ≡ false → IsBetween 0 one (clamp_unit x)
unfolding clamp_unit lt
clamp_unit-IsBetween x number = elim (Bool-cases (lt x 0)) [
  | inl low ↦ rw low zero-IsBetween
  | inr above ↦ elim (Bool-cases (lt one x)) [
    | inl high ↦ rw (above, high) one-IsBetween
    | inr below ↦ rw (above, below) (number, above, below)
  ]
]

new-IsGoverned : (config : ThermalConfig) → IsGoverned (new config)
unfolding new
new-IsGoverned config = record { cap = one-IsCap; ramping = tt }

begin-IsGoverned :
    (now : ℕ) (g : ThermalGovernor) → IsGoverned g → IsGoverned (begin_recovery now g)
unfolding begin_recovery
begin-IsGoverned now g h = elim (Bool-cases (lt g.last_multiplier one && is_none g.recovery)) [
  | inl e ↦ rw e (record { cap = h.cap; ramping = h.cap })
  | inr e ↦ rw e h
]

module _ (fl : Arithmetic) (as_secs : ℕ → ℕ) where
  -- Ticks, each with its instant and what the source would read.
  unfoldable pub ticks : List (ℕ × Option ℕ) → ThermalGovernor → ThermalGovernor
  unfolding tick_at
  ticks [] g = g
  ticks ((now, reading) ∷ more) g = ticks more (tick_at fl as_secs now reading g).0

-- Either way.
if-IsGoverned :
    (b : Bool) (x y : ThermalGovernor × Option ℕ)
    → IsGoverned x.0
    → IsGoverned y.0
    → IsGoverned (if b then x else y).0
if-IsGoverned true x y h k = h
if-IsGoverned false x y h k = k

module _ (fl : Arithmetic) (as_secs : ℕ → ℕ) (ramps : RampsUp fl)
    (number : DividesToNumber fl as_secs) where
  recover-IsGoverned :
      (now : ℕ) (r : Option Recovery) (g : ThermalGovernor)
      → IsRecovery r
      → IsGoverned g
      → IsGoverned (recover fl as_secs now r g).0
  unfolding recover ramp
  recover-IsGoverned now none g ok_r h = record { cap = one-IsCap; ramping = h.ramping }
  recover-IsGoverned now (some r) g ok_r h =
      let progress =
        clamp_unit-IsBetween _ (number (now - r.started_at) g.config.recovery_seconds) in
      elim (Bool-cases (ge (ramp fl as_secs now r g.config) almost_one)) [
        | inl e ↦ rw e (record { cap = one-IsCap; ramping = tt })
        | inr e ↦
            rw e (record { cap = ramps r.start_multiplier _ ok_r progress; ramping = h.ramping })
      ]

  on_temperature-IsGoverned :
      (now temp : ℕ) (g : ThermalGovernor)
      → IsGoverned g
      → IsGoverned (on_temperature fl as_secs now temp g).0
  unfolding on_temperature
  on_temperature-IsGoverned now temp g h = elim (Bool-cases (leb g.config.emergency_celsius temp)) [
    | inl e ↦ rw e (record { cap = emergency-IsCap; ramping = tt })
    | inr n₁ ↦ elim (Bool-cases (leb g.config.limit_celsius temp)) [
      | inl e ↦ rw (n₁, e) (record { cap = limit-IsCap; ramping = tt })
      | inr n₂ ↦ elim (Bool-cases (leb g.config.warn_celsius temp)) [
        | inl e ↦ rw (n₁, n₂, e) (record { cap = h.cap; ramping = tt })
        | inr n₃ ↦
            let begun = begin-IsGoverned now g h in
            rw (n₁, n₂, n₃)
              (recover-IsGoverned now (begin_recovery now g).recovery (begin_recovery now g)
                begun.ramping begun)
      ]
    ]
  ]

  on_reading-IsGoverned :
      (now : ℕ) (reading : Option ℕ) (g : ThermalGovernor)
      → IsGoverned g
      → IsGoverned (on_reading fl as_secs now reading g).0
  unfolding on_reading
  on_reading-IsGoverned now none g h = record { cap = one-IsCap; ramping = h.ramping }
  on_reading-IsGoverned now (some temp) g h = on_temperature-IsGoverned now temp g h

  tick_at-IsGoverned :
      (now : ℕ) (reading : Option ℕ) (g : ThermalGovernor)
      → IsGoverned g
      → IsGoverned (tick_at fl as_secs now reading g).0
  unfolding tick_at
  tick_at-IsGoverned now reading g h =
      let polled : ThermalGovernor = record g { last_poll = some now } in
      if-IsGoverned (not g.config.enabled) _ _ (record { cap = one-IsCap; ramping = tt })
        (if-IsGoverned (too_early now g.last_poll g.config) (g, none) _ h
          (on_reading-IsGoverned now reading polled (record { cap = h.cap; ramping = h.ramping })))

  ticks_from :
      (readings : List (ℕ × Option ℕ)) (g : ThermalGovernor)
      → IsGoverned g
      → IsGoverned (ticks fl as_secs readings g)
  unfolding ticks
  ticks_from [] g h = h
  ticks_from ((now, reading) ∷ more) g h = ticks_from more _ (tick_at-IsGoverned now reading g h)

  -- Whatever the settings, and whatever temperatures are read or missing at whatever instants, the
  -- multiplier is a number between one half and one, and so is where a recovery starts. Assumed of the
  -- float operations: a ramp from such a number at a progress from zero to one is such a number, and
  -- a time divided by a number of seconds above zero is a number.
  pub ticks-IsGoverned :
      (readings : List (ℕ × Option ℕ)) (config : ThermalConfig)
      → IsGoverned (ticks fl as_secs readings (new config))
  ticks-IsGoverned readings config = ticks_from readings (new config) (new-IsGoverned config)
