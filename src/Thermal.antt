-- ===== src/Thermal.antt =====
-- `ThermalGovernor` of rust/streaming-engine/src/thermal.rs. A temperature is the reading of the poll, an
-- instant a number of microseconds; a multiplier is a double's bit pattern.
pub mod Within
mod Tests
use focus_vision_pcvr.Prelude.{
  ℕ, ◌+◌, ◌-◌, ◌*◌, max, Bool, true, false, not, ◌&&◌, Option, none, some, is_none, ltb, leb,
  if◌then◌else◌,
}
use focus_vision_pcvr.Prelude.F64.{Arithmetic, one, lt, ge}

-- 0.70 and 0.50.
abbrev pub limit_multiplier : ℕ
limit_multiplier = 0x3fe6_6666_6666_6666

abbrev pub emergency_multiplier : ℕ
emergency_multiplier = 0x3fe0_0000_0000_0000

-- `1.0 - f64::EPSILON`
abbrev pub almost_one : ℕ
almost_one = 0x3fef_ffff_ffff_fffe

pub record ThermalConfig : Type 0 where
  pub enabled : Bool
  pub poll_interval_seconds : ℕ
  pub warn_celsius : ℕ
  pub limit_celsius : ℕ
  pub emergency_celsius : ℕ
  pub recovery_seconds : ℕ

pub record Recovery : Type 0 where
  pub started_at : ℕ
  pub start_multiplier : ℕ

pub record ThermalGovernor : Type 0 where
  pub config : ThermalConfig
  pub last_poll : Option ℕ
  pub last_multiplier : ℕ
  pub recovery : Option Recovery

unfoldable pub new : ThermalConfig → ThermalGovernor
new config = record { config = config; last_poll = none; last_multiplier = one; recovery = none }

-- `x.clamp(0.0, 1.0)`
unfoldable pub clamp_unit : ℕ → ℕ
clamp_unit x = let raised : ℕ = if lt x 0 then 0 else x in if lt one raised then one else raised

unfoldable pub too_early : ℕ → Option ℕ → ThermalConfig → Bool
too_early now none config = false
too_early now (some prev) config = ltb (now - prev) (config.poll_interval_seconds * 1_000_000)

-- Below the warning: a cap begins its recovery.
unfoldable pub begin_recovery : ℕ → ThermalGovernor → ThermalGovernor
begin_recovery now g =
    if lt g.last_multiplier one && is_none g.recovery
    then record g {
      recovery = some (record { started_at = now; start_multiplier = g.last_multiplier });
    }
    else g

-- What the source reads, kept by the caller: the governor after a poll, with its multiplier.
abbrev pub capped : ℕ → ThermalGovernor → ThermalGovernor × Option ℕ
capped m g = (record g { last_multiplier = m }, some m)

module _ (fl : Arithmetic) (as_secs : ℕ → ℕ) where
  -- The multiplier that a recovery has reached.
  unfoldable pub ramp : ℕ → Recovery → ThermalConfig → ℕ
  unfolding clamp_unit
  ramp now r config =
      let progress =
        clamp_unit
          (fl.div (as_secs (now - r.started_at)) (fl.of_nat (max config.recovery_seconds 1))) in
      fl.add r.start_multiplier (fl.mul (fl.sub one r.start_multiplier) progress)

  unfoldable pub recover : ℕ → Option Recovery → ThermalGovernor → ThermalGovernor × Option ℕ
  unfolding ramp
  recover now none g = capped one g
  recover now (some r) g =
      let m = ramp now r g.config in
      if ge m almost_one then capped one (record g { recovery = none }) else capped m g

  unfoldable pub on_temperature : ℕ → ℕ → ThermalGovernor → ThermalGovernor × Option ℕ
  unfolding recover begin_recovery
  on_temperature now temp g =
      if leb g.config.emergency_celsius temp
      then capped emergency_multiplier (record g { recovery = none })
      else (if leb g.config.limit_celsius temp
          then capped limit_multiplier (record g { recovery = none })
          else (if leb g.config.warn_celsius temp
              then capped g.last_multiplier (record g { recovery = none })
              else (let begun = begin_recovery now g in recover now begun.recovery begun)))

  -- A reading that is not there is no cap.
  unfoldable pub on_reading : ℕ → Option ℕ → ThermalGovernor → ThermalGovernor × Option ℕ
  unfolding on_temperature
  on_reading now none g = capped one g
  on_reading now (some temp) g = on_temperature now temp g

  unfoldable pub tick_at : ℕ → Option ℕ → ThermalGovernor → ThermalGovernor × Option ℕ
  unfolding on_reading too_early
  tick_at now reading g =
      if not g.config.enabled
      then capped one (record g { recovery = none })
      else (if too_early now g.last_poll g.config
          then (g, none)
          else on_reading now reading (record g { last_poll = some now }))
