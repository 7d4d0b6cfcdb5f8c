-- ===== src/Engine/Adaptive/InStep.antt =====
-- The events, ticks and frames of a session, one at a time.
use focus_vision_pcvr.Prelude.{
  ℕ, ◌%◌, ◌^◌, ◌≡◌, ◌≤◌, ◌⊎◌, ◌*◌, refl, sym, subst, ◌∙◌, Bool, true, false, Option, none, some,
  arith, ◌==◌, inl, inr, if◌then◌else◌, ◌>>=◌, >>=-eq-some,
}
use focus_vision_pcvr.Prelude.F32
use focus_vision_pcvr.Pipeline.Sliced.{FrameFecEncoder}
use focus_vision_pcvr.Adaptive.Arbitration.{arbitrate}
use focus_vision_pcvr.Adaptive.Controller
use focus_vision_pcvr.Adaptive.Controller.{
  BitrateController, Signals, inputs_of, take_outcome, set_setting_mbps, setting_mbps,
  set_thermal_ceiling_bps,
}
use focus_vision_pcvr.Adaptive.Controller.Bounds.{
  IsBounded, new-IsBounded, set_setting-IsBounded, effective_max_le,
}
use focus_vision_pcvr.Adaptive.FecControl
use focus_vision_pcvr.Adaptive.FecControl.{AdaptiveFecController, activate_boost, deactivate_boost}
use focus_vision_pcvr.Adaptive.FecControl.Within.{
  IsWithin, IsNumeric, new-IsWithin, adjust-IsWithin, boosting-IsWithin,
}
use focus_vision_pcvr.Adaptive.Gcc
use focus_vision_pcvr.Adaptive.Gcc.Trend.{IsTracked, new-IsTracked, process_feedback-IsTracked}
use focus_vision_pcvr.Engine.Control.{ControlEvent, heartbeat, transport_feedback, bitrate_setting}
use focus_vision_pcvr.Engine.Adaptive.{
  Settings, fec_of, with_fec, new, Driving, notify, moved, Floats, on_event, set_fec, adjust_fec,
  end_boost, boost_or_adjust, respond_to_burst,
}

abbrev pub AllWithin : Option AdaptiveFecController → Type 0
AllWithin none = Unit
AllWithin (some afec) = IsWithin afec

-- The encoder's bitrate is the controller's, unless something else has come between (`off`). It is one
-- that a user may set, or the one of the sleep mode. The controller's bitrate is within its bounds, the
-- redundancy is within its own, and the delay estimator keeps at most 60 samples.
pub record IsDriven (off : Bool) (d : Driving) : Type 0 where
  pub in_step : (off ≡ true) ⊎ (d.encoder_bps ≡ d.adaptive.bitrate_ctrl.current_bitrate_bps)
  pub told :
      ((10_000_000 ≤ d.encoder_bps) × (d.encoder_bps ≤ 200_000_000))
      ⊎ (d.encoder_bps ≡ d.adaptive.sleep_detector.sleep_bitrate_mbps * 1_000_000 % 2 ^ 32)
  pub bitrate : IsBounded d.adaptive.bitrate_ctrl
  pub redundancy : AllWithin d.adaptive.adaptive_fec
  pub delay : IsTracked d.adaptive.gcc_estimator

fits :
    (c : BitrateController) → IsBounded c → c.current_bitrate_bps % 2 ^ 32 ≡ c.current_bitrate_bps
fits c h =
    let below = effective_max_le c.max_bitrate_bps c.thermal_ceiling_bps in
    omega (arith, h.below, h.ceiling, below)

setting_fits :
    (c : BitrateController)
    → IsBounded c
    → (10_000_000 ≤ c.current_bitrate_bps % 2 ^ 32) × (c.current_bitrate_bps % 2 ^ 32 ≤ 200_000_000)
setting_fits c h =
    let below = effective_max_le c.max_bitrate_bps c.thermal_ceiling_bps in
    (
      omega (arith, h.below, h.above, h.ceiling, below),
      omega (arith, h.below, h.above, h.ceiling, below),
    )

-- Either way.
pub if-IsDriven :
    {off : Bool} (b : Bool) (x y : Driving)
    → IsDriven off x
    → IsDriven off y
    → IsDriven off (if b then x else y)
if-IsDriven true x y h k = h
if-IsDriven false x y h k = k

-- Told the bitrate, the encoder is in step.
notify-IsDriven :
    (off : Bool) (d : Driving)
    → IsBounded d.adaptive.bitrate_ctrl
    → AllWithin d.adaptive.adaptive_fec
    → IsTracked d.adaptive.gcc_estimator
    → IsDriven off (notify d)
unfolding notify
notify-IsDriven off d b r t = record {
  in_step = inr (fits d.adaptive.bitrate_ctrl b);
  told = inl (setting_fits d.adaptive.bitrate_ctrl b);
  bitrate = b;
  redundancy = r;
  delay = t;
}

-- A controller that says that it has not moved has not.
abbrev Stays : BitrateController → BitrateController × Bool → Type 0
Stays c (c', true) = Unit
Stays c (c', false) = c'.current_bitrate_bps ≡ c.current_bitrate_bps

if-Stays :
    (b : Bool) (c : BitrateController) (x y : BitrateController × Bool)
    → Stays c x
    → Stays c y
    → Stays c (if b then x else y)
if-Stays true c x y h k = h
if-Stays false c x y h k = k

pub adjust-Stays :
    (times : ℕ → ℕ → ℕ) (now : ℕ) (s : Signals) (c : BitrateController)
    → Stays c (Controller.adjust times now s c)
unfolding Controller.adjust take_outcome
adjust-Stays times now s c =
    if-Stays s.has_data c _ (c, false)
      (if-Stays ((arbitrate times (inputs_of now s c)).target_bps == c.current_bitrate_bps) c _ _
        refl tt)
      refl

in_step_from : {A B C : Type 0} → A ⊎ B → (B → C) → A ⊎ C
in_step_from (inl a) f = inl a
in_step_from (inr b) f = inr (f b)

pub moved-IsDriven :
    {off : Bool} (c : BitrateController × Bool) (d : Driving)
    → IsBounded c.0
    → Stays d.adaptive.bitrate_ctrl c
    → IsDriven off d
    → IsDriven off (moved c d)
unfolding moved
moved-IsDriven {off} (c, true) d b s h =
    notify-IsDriven off (record d { adaptive = record d.adaptive { bitrate_ctrl = c } }) b
      h.redundancy h.delay
moved-IsDriven (c, false) d b s h = record {
  in_step = in_step_from h.in_step (λ e. e ∙ sym s);
  told = h.told;
  bitrate = b;
  redundancy = h.redundancy;
  delay = h.delay;
}

if-AllWithin :
    (b : Bool) (now lo hi initial : ℕ) (o : Option AdaptiveFecController)
    → F32.is_nan initial ≡ false
    → (if b then FecControl.new now lo hi initial >>= (λ c. some (some c)) else some none) ≡ some o
    → AllWithin o
if-AllWithin true now lo hi initial o number h =
    let made = >>=-eq-some (FecControl.new now lo hi initial) (λ c. some (some c)) o h in
    subst AllWithin {x = some made.0} (ground (arith, made.2))
      (new-IsWithin now lo hi initial made.0 number made.1)
if-AllWithin false now lo hi initial o number h = subst AllWithin {x = none} (ground (arith, h)) tt

-- A session starts with the encoder told the controller's bitrate; `none` is the panic of making the
-- redundancy controller.
unfoldable pub start : ℕ → Settings → ℕ → FrameFecEncoder → Option Driving
unfolding new notify
start now s old_bps fec =
    new now s
    >>= (λ a. some (notify (record { adaptive = a; encoder_bps = old_bps; fec_encoder = fec })))

with_fec-IsDriven :
    (now : ℕ) (s : Settings) (old_bps : ℕ) (fec : FrameFecEncoder)
    (o : Option AdaptiveFecController)
    → AllWithin o
    → IsDriven false
        (notify (record { adaptive = with_fec now s o; encoder_bps = old_bps; fec_encoder = fec }))
unfolding with_fec
with_fec-IsDriven now s old_bps fec o h =
    notify-IsDriven false
      (record { adaptive = with_fec now s o; encoder_bps = old_bps; fec_encoder = fec })
      (new-IsBounded now s.bitrate_mbps) h (new-IsTracked now _)

pub start-IsDriven :
    (now : ℕ) (s : Settings) (old_bps : ℕ) (fec : FrameFecEncoder) (d : Driving)
    → F32.is_nan s.fec_redundancy ≡ false
    → start now s old_bps fec ≡ some d
    → IsDriven false d
unfolding start new fec_of
start-IsDriven now s old_bps fec d number h =
    let made = >>=-eq-some (new now s) _ d h in
    let controlled = >>=-eq-some (fec_of now s) _ made.0 made.1 in
    let driving : Driving → Type 0 = IsDriven false in
    subst driving (ground (arith, made.2)) (
      subst
        (λ a. driving (notify (record { adaptive = a; encoder_bps = old_bps; fec_encoder = fec })))
        {y = made.0} (ground (arith, controlled.2))
        (with_fec-IsDriven now s old_bps fec controlled.0 (
          if-AllWithin s.adaptive_fec_enabled now s.fec_redundancy_min s.fec_redundancy_max
            s.fec_redundancy controlled.0 number controlled.1)))

if-IsTracked :
    (b : Bool) (x y : Gcc.GccEstimator) → IsTracked x → IsTracked y → IsTracked (if b then x else y)
if-IsTracked true x y h k = h
if-IsTracked false x y h k = k

-- A new setting puts the encoder in step again.
abbrev pub off_event : ControlEvent → Bool → Bool
off_event (heartbeat stats) off = off
off_event (transport_feedback entries) off = off
off_event (bitrate_setting mbps) off = false

pub event-IsDriven :
    {off : Bool} (fl : Floats) (now : ℕ) (e : ControlEvent) (d : Driving)
    → IsDriven off d
    → IsDriven (off_event e off) (on_event fl now e d)
unfolding on_event
event-IsDriven fl now (heartbeat stats) d h = record {
  in_step = h.in_step;
  told = h.told;
  bitrate = h.bitrate;
  redundancy = h.redundancy;
  delay = h.delay;
}
event-IsDriven fl now (transport_feedback entries) d h = record {
  in_step = h.in_step;
  told = h.told;
  bitrate = h.bitrate;
  redundancy = h.redundancy;
  delay =
      if-IsTracked d.adaptive.gcc_enabled _ _
        (process_feedback-IsTracked fl.double entries d.adaptive.gcc_estimator h.delay) h.delay;
}
event-IsDriven fl now (bitrate_setting mbps) d h =
    notify-IsDriven false
      (record d {
        adaptive = record d.adaptive {
          bitrate_ctrl = set_setting_mbps now mbps d.adaptive.bitrate_ctrl;
        };
      })
      (set_setting-IsBounded now mbps d.adaptive.bitrate_ctrl h.bitrate) h.redundancy h.delay

set_fec-IsDriven :
    {off : Bool} (fl : Floats) (afec : AdaptiveFecController) (d : Driving)
    → IsWithin afec
    → IsDriven off d
    → IsDriven off (set_fec fl afec d)
unfolding set_fec
set_fec-IsDriven fl afec d w h = record {
  in_step = h.in_step;
  told = h.told;
  bitrate = h.bitrate;
  redundancy = w;
  delay = h.delay;
}

pub adjust_fec-IsDriven :
    {off : Bool} (fl : Floats) (numeric : IsNumeric fl.single) (now : ℕ)
    (o : Option AdaptiveFecController) (d : Driving)
    → AllWithin o
    → IsDriven off d
    → IsDriven off (adjust_fec fl now o d)
unfolding adjust_fec
adjust_fec-IsDriven fl numeric now none d w h = h
adjust_fec-IsDriven fl numeric now (some afec) d w h =
    let loss = d.adaptive.bw_estimator.loss_rate_ewma in
    let within = adjust-IsWithin fl.single now loss afec numeric w in
    if-IsDriven (FecControl.adjust fl.single now loss afec).1 _ _
      (set_fec-IsDriven fl (FecControl.adjust fl.single now loss afec).0 d within h)
      (record {
        in_step = h.in_step;
        told = h.told;
        bitrate = h.bitrate;
        redundancy = within;
        delay = h.delay;
      })

end_boost-IsDriven :
    {off : Bool} (fl : Floats) (o : Option AdaptiveFecController) (d : Driving)
    → AllWithin o
    → IsDriven off d
    → IsDriven off (end_boost fl o d)
unfolding end_boost deactivate_boost
end_boost-IsDriven fl none d w h = h
end_boost-IsDriven fl (some afec) d w h =
    if-IsDriven _ _ d
      (set_fec-IsDriven fl (deactivate_boost afec) d (boosting-IsWithin false afec w) h) h

boost-IsDriven :
    {off : Bool} (fl : Floats) (numeric : IsNumeric fl.single) (now : ℕ)
    (o : Option AdaptiveFecController) (d : Driving)
    → AllWithin o
    → IsDriven off d
    → IsDriven off (boost_or_adjust fl now o d)
unfolding boost_or_adjust activate_boost
boost-IsDriven fl numeric now none d w h = adjust_fec-IsDriven fl numeric now none d w h
boost-IsDriven fl numeric now (some afec) d w h =
    set_fec-IsDriven fl (activate_boost afec) d (boosting-IsWithin true afec w) h

pub respond-IsDriven :
    {off : Bool} (fl : Floats) (numeric : IsNumeric fl.single) (now : ℕ) (d : Driving)
    → IsDriven off d
    → IsDriven off (respond_to_burst fl now d)
unfolding respond_to_burst
respond-IsDriven fl numeric now d h =
    let ended = end_boost-IsDriven fl d.adaptive.adaptive_fec d h.redundancy h in
    if-IsDriven _ _ _ (boost-IsDriven fl numeric now d.adaptive.adaptive_fec d h.redundancy h)
      (adjust_fec-IsDriven fl numeric now _ _ ended.redundancy ended)
