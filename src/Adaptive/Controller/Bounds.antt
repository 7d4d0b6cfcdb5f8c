-- ===== src/Adaptive/Controller/Bounds.antt =====
-- The bounds that the controller keeps, and when it lets the bitrate rise.
use focus_vision_pcvr.Prelude.{
  ℕ, ◌≤◌, ◌≡◌, inl, inr, refl, max, Option, none, some, List, [], ◌∷◌, arith, ◌==◌, Bool-cases,
}
use focus_vision_pcvr.Adaptive.Arbitration.{
  LossPattern, normal, burst, sustained, ArbitrationInputs, ArbitrationOutcome, arbitrate,
  arbitrate_for, arbitrate_choice, settle_on, clamp_with_thermal, effective_max, choose_for,
  or_increase,
}
use focus_vision_pcvr.Adaptive.Controller.{
  BitrateController, new, setting_bps, clamp_to_bounds, set_setting_mbps, Signals, inputs_of,
  take_outcome, adjust, set_thermal_ceiling_bps, clear_thermal_ceiling,
}

-- The target that an outcome gives is a clamped candidate, whichever way it was chosen.
arbitrate_for-clamped :
    (times : ℕ → ℕ → ℕ) (p : LossPattern) (i : ArbitrationInputs)
    → (candidate : ℕ) × ((arbitrate_for times p i).target_bps
        ≡ clamp_with_thermal candidate i.min_bps i.hard_max_bps i.thermal_ceiling_bps)
unfolding arbitrate_for arbitrate_choice settle_on
arbitrate_for-clamped times burst i = (i.current_bps, refl)
arbitrate_for-clamped times sustained i =
    (times i.current_bps (or_increase i (choose_for sustained i)).0, refl)
arbitrate_for-clamped times normal i =
    (times i.current_bps (or_increase i (choose_for normal i)).0, refl)

-- Whatever the signals and the float product give, the target is at least the floor, and at most the
-- larger of the floor and both ceilings' minimum.
arbitrate-bounds :
    (times : ℕ → ℕ → ℕ) (i : ArbitrationInputs)
    → (i.min_bps ≤ (arbitrate times i).target_bps)
      × ((arbitrate times i).target_bps
          ≤ max (effective_max i.hard_max_bps i.thermal_ceiling_bps) i.min_bps)
unfolding arbitrate clamp_with_thermal
arbitrate-bounds times i =
    let clamped = arbitrate_for-clamped times i.pattern i in
    rw (clamped.1) (omega arith, omega arith)

-- The invariant of the controller: the floor is 10 Mbps, the ceiling a setting between 10 and 200,
-- and the bitrate is between the floor and the ceiling, and under the thermal ceiling where that
-- leaves room above the floor.
pub record IsBounded (c : BitrateController) : Type 0 where
  pub floor : c.min_bitrate_bps ≡ 10_000_000
  pub ceiling : (10_000_000 ≤ c.max_bitrate_bps) × (c.max_bitrate_bps ≤ 200_000_000)
  pub above : 10_000_000 ≤ c.current_bitrate_bps
  pub below :
      c.current_bitrate_bps ≤ max (effective_max c.max_bitrate_bps c.thermal_ceiling_bps) 10_000_000

setting-bounds : (mbps : ℕ) → (10_000_000 ≤ setting_bps mbps) × (setting_bps mbps ≤ 200_000_000)
unfolding setting_bps
setting-bounds mbps = (omega arith, omega arith)

pub effective_max_le : (m : ℕ) (t : Option ℕ) → effective_max m t ≤ m
unfolding effective_max
effective_max_le m none = omega arith
effective_max_le m (some t) = omega arith

-- A new controller is within its bounds, whatever setting it is given.
pub new-IsBounded : (now mbps : ℕ) → IsBounded (new now mbps)
unfolding new effective_max
new-IsBounded now mbps =
    let s = setting-bounds mbps in
    record { floor = refl; ceiling = s; above = s.0; below = omega arith }

pub set_setting-IsBounded :
    (now mbps : ℕ) (c : BitrateController) → IsBounded c → IsBounded (set_setting_mbps now mbps c)
unfolding set_setting_mbps clamp_to_bounds
set_setting-IsBounded now mbps c h = record {
  floor = h.floor;
  ceiling = setting-bounds mbps;
  above = omega (arith, h.floor);
  below = omega (arith, h.floor);
}

take_outcome-IsBounded :
    (now : ℕ) (o : ArbitrationOutcome) (c : BitrateController)
    → IsBounded c
    → 10_000_000 ≤ o.target_bps
    → o.target_bps ≤ max (effective_max c.max_bitrate_bps c.thermal_ceiling_bps) 10_000_000
    → IsBounded (take_outcome now o c).0
unfolding take_outcome
take_outcome-IsBounded now o c h low high =
    elim (Bool-cases (o.target_bps == c.current_bitrate_bps)) [
      | inl same ↦
          rw same
            (record { floor = h.floor; ceiling = h.ceiling; above = h.above; below = h.below })
      | inr changed ↦
          rw changed (record { floor = h.floor; ceiling = h.ceiling; above = low; below = high })
    ]

pub adjust-IsBounded :
    (times : ℕ → ℕ → ℕ) (now : ℕ) (s : Signals) (c : BitrateController)
    → IsBounded c
    → IsBounded (adjust times now s c).0
unfolding adjust inputs_of
adjust-IsBounded times now s c h =
    let o = arbitrate-bounds times (inputs_of now s c) in
    elim (Bool-cases s.has_data) [
      | inl e ↦ rw e (
          take_outcome-IsBounded now (arbitrate times (inputs_of now s c)) c h
            (omega (arith, h.floor, o)) (omega (arith, h.floor, o)))
      | inr e ↦ rw e h
    ]

pub thermal-IsBounded :
    (ceiling : ℕ) (c : BitrateController)
    → IsBounded c
    → IsBounded (set_thermal_ceiling_bps ceiling c)
unfolding set_thermal_ceiling_bps clamp_to_bounds
thermal-IsBounded ceiling c h = record {
  floor = h.floor;
  ceiling = h.ceiling;
  above = omega (arith, h.floor);
  below = omega (arith, h.floor);
}

clear-IsBounded : (c : BitrateController) → IsBounded c → IsBounded (clear_thermal_ceiling c)
unfolding clear_thermal_ceiling effective_max
clear-IsBounded c h = record {
  floor = h.floor;
  ceiling = h.ceiling;
  above = h.above;
  below =
      omega (arith, h.below, h.ceiling, effective_max_le c.max_bitrate_bps c.thermal_ceiling_bps);
}

-- What the engine asks of the controller.
pub data Request : Type 0 where
  setting : ℕ → ℕ → Request
  evaluate : ℕ → Signals → Request
  hot : ℕ → Request
  cool : Request

unfoldable pub serve : (ℕ → ℕ → ℕ) → Request → BitrateController → BitrateController
serve times (setting now mbps) c = set_setting_mbps now mbps c
serve times (evaluate now s) c = (adjust times now s c).0
serve times (hot ceiling) c = set_thermal_ceiling_bps ceiling c
serve times cool c = clear_thermal_ceiling c

unfoldable pub serve_all : (ℕ → ℕ → ℕ) → List Request → BitrateController → BitrateController
serve_all times [] c = c
serve_all times (r ∷ requests) c = serve_all times requests (serve times r c)

serve-IsBounded :
    (times : ℕ → ℕ → ℕ) (r : Request) (c : BitrateController)
    → IsBounded c
    → IsBounded (serve times r c)
unfolding serve
serve-IsBounded times (setting now mbps) c h = set_setting-IsBounded now mbps c h
serve-IsBounded times (evaluate now s) c h = adjust-IsBounded times now s c h
serve-IsBounded times (hot ceiling) c h = thermal-IsBounded ceiling c h
serve-IsBounded times cool c h = clear-IsBounded c h

serve_all_from :
    (times : ℕ → ℕ → ℕ) (requests : List Request) (c : BitrateController)
    → IsBounded c
    → IsBounded (serve_all times requests c)
unfolding serve_all
serve_all_from times [] c h = h
serve_all_from times (r ∷ requests) c h =
    serve_all_from times requests (serve times r c) (serve-IsBounded times r c h)

-- From a new controller, whatever requests come in whatever order and whatever the float product
-- gives, the bitrate stays between 10 Mbps and the user's setting, which stays between 10 and 200
-- Mbps, and under the thermal ceiling where that is above 10 Mbps.
pub serve_all-IsBounded :
    (times : ℕ → ℕ → ℕ) (requests : List Request) (now mbps : ℕ)
    → IsBounded (serve_all times requests (new now mbps))
serve_all-IsBounded times requests now mbps =
    serve_all_from times requests (new now mbps) (new-IsBounded now mbps)
