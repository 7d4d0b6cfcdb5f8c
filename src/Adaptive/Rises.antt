-- ===== src/Adaptive/Rises.antt =====
-- When the arbitration lets the bitrate rise.
use focus_vision_pcvr.Prelude.{
  ℕ, ◌≤◌, ◌<◌, ◌≡◌, ◌⊎◌, inl, inr, refl, subst, ◌^◌, true, false, arith, if◌then◌else◌, Bool-cases,
}
use focus_vision_pcvr.Prelude.F64.{lt, ge}
use focus_vision_pcvr.Adaptive.Arbitration.{
  LossPattern, normal, burst, sustained, ArbitrationInputs, ArbDominant, loss, delay, no_change,
  arbitrate, arbitrate_for, arbitrate_choice, settle_on, clamp_with_thermal, choose_for,
  or_increase, or_lower, Choice, f0_80, f0_90, f0_95, f1_0, f2_0, f0_05, f0_01,
}

-- What the code relies on of its float product: below 2^53, where every integer is a float, a
-- multiplier that is not above one does not raise a bitrate.
abbrev pub IsShrinking : (ℕ → ℕ → ℕ) → Type 0
IsShrinking times = (n m : ℕ) → n < 2 ^ 53 → lt f1_0 m ≡ false → times n m ≤ n

or_lower-small :
    (m : ℕ) (signal : ArbDominant) (c : Choice)
    → lt f1_0 m ≡ false
    → lt f1_0 c.0 ≡ false
    → lt f1_0 (or_lower m signal c).0 ≡ false
or_lower-small m signal c hm hc = elim (Bool-cases (lt m c.0)) [ inl e ↦ rw e hm | inr e ↦ rw e hc ]

-- What a normal pattern's choice starts from.
delayed-small :
    (i : ArbitrationInputs)
    → lt f1_0
        (if lt f2_0 i.delay_gradient_ms
          then or_lower f0_90 delay (f1_0, no_change)
          else (f1_0, no_change)).0
      ≡ false
unfolding lt
delayed-small i = elim (Bool-cases (lt f2_0 i.delay_gradient_ms)) [
  | inl e ↦ rw e (or_lower-small f0_90 delay (f1_0, no_change) refl refl)
  | inr e ↦ rw e refl
]

choose_for-small : (p : LossPattern) (i : ArbitrationInputs) → lt f1_0 (choose_for p i).0 ≡ false
unfolding choose_for lt
choose_for-small sustained i = refl
choose_for-small burst i = refl
choose_for-small normal i =
    let delayed : Choice =
      if lt f2_0 i.delay_gradient_ms
      then or_lower f0_90 delay (f1_0, no_change)
      else (f1_0, no_change) in
    elim (Bool-cases (lt f0_05 i.loss_rate)) [
      | inl e ↦ rw e (or_lower-small f0_80 loss delayed refl (delayed-small i))
      | inr e ↦ elim (Bool-cases (lt i.target_loss_rate i.loss_rate)) [
        | inl e' ↦ rw (e, e') (or_lower-small f0_95 loss delayed refl (delayed-small i))
        | inr e' ↦ rw (e, e') (delayed-small i)
      ]
    ]

module _ (times : ℕ → ℕ → ℕ) (shrinking : IsShrinking times) (i : ArbitrationInputs) where
  -- A candidate that is not above the bitrate does not raise it.
  settle_on-down :
      (candidate : ℕ) (network : ArbDominant)
      → i.min_bps ≤ i.current_bps
      → candidate ≤ i.current_bps
      → (settle_on times i candidate network).target_bps ≤ i.current_bps
  unfolding settle_on clamp_with_thermal
  settle_on-down candidate network low h = omega arith

  or_increase-cases :
      (c : Choice)
      → (or_increase i c ≡ c) ⊎ ((i.hysteresis_elapsed ≡ true) × (lt i.loss_rate f0_01 ≡ true))
  unfolding or_increase
  or_increase-cases c = elim (Bool-cases (ge c.0 f1_0)) [
    | inr e ↦ inl (rw e refl)
    | inl e ↦ elim (Bool-cases i.hysteresis_elapsed) [
      | inr e' ↦ inl (rw (e, e') refl)
      | inl e' ↦ elim (Bool-cases (lt i.loss_rate f0_01)) [
        | inr e'' ↦ inl (rw (e, e', e'') refl)
        | inl e'' ↦ inr (e', e'')
      ]
    ]
  ]

  arbitrate_choice-down :
      (c : Choice)
      → lt f1_0 c.0 ≡ false
      → i.current_bps < 2 ^ 53
      → i.min_bps ≤ i.current_bps
      → (arbitrate_choice times i c).target_bps ≤ i.current_bps
  unfolding arbitrate_choice
  arbitrate_choice-down c small fits low =
      settle_on-down (times i.current_bps c.0) c.1 low (shrinking i.current_bps c.0 fits small)

  choice-rises :
      (c : Choice)
      → lt f1_0 c.0 ≡ false
      → i.current_bps < 2 ^ 53
      → i.min_bps ≤ i.current_bps
      → i.current_bps < (arbitrate_choice times i (or_increase i c)).target_bps
      → (i.hysteresis_elapsed ≡ true) × (lt i.loss_rate f0_01 ≡ true)
  choice-rises c small fits low h = elim (or_increase-cases c) [
    | inl same ↦
        let risen : i.current_bps < (arbitrate_choice times i c).target_bps =
          subst (λ c'. i.current_bps < (arbitrate_choice times i c').target_bps) same h in
        absurd (omega (arith, risen, arbitrate_choice-down c small fits low))
    | inr calm ↦ calm
  ]

  for-rises :
      (p : LossPattern)
      → i.current_bps < 2 ^ 53
      → i.min_bps ≤ i.current_bps
      → i.current_bps < (arbitrate_for times p i).target_bps
      → (i.hysteresis_elapsed ≡ true) × (lt i.loss_rate f0_01 ≡ true)
  unfolding arbitrate_for
  for-rises burst fits low h =
      absurd (omega (arith, h, settle_on-down i.current_bps no_change low (omega arith)))
  for-rises sustained fits low h =
      choice-rises (choose_for sustained i) (choose_for-small sustained i) fits low h
  for-rises normal fits low h =
      choice-rises (choose_for normal i) (choose_for-small normal i) fits low h

-- The bitrate rises only in calm: for a current bitrate that is not below the floor and is under
-- 2^53, and a float product that does not raise a bitrate where the multiplier is at most one, a
-- target above the current bitrate means that the hysteresis has elapsed and that the loss is
-- below 1 %.
pub arbitrate-rises :
    (times : ℕ → ℕ → ℕ) (i : ArbitrationInputs)
    → IsShrinking times
    → i.current_bps < 2 ^ 53
    → i.min_bps ≤ i.current_bps
    → i.current_bps < (arbitrate times i).target_bps
    → (i.hysteresis_elapsed ≡ true) × (lt i.loss_rate f0_01 ≡ true)
unfolding arbitrate
arbitrate-rises times i shrinking fits low h = for-rises times shrinking i i.pattern fits low h
