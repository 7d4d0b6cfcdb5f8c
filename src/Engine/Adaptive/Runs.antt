-- ===== src/Engine/Adaptive/Runs.antt =====
-- The events and frames of a whole session.
use focus_vision_pcvr.Prelude.{
  ℕ, ◌≤◌, ◌*◌, ◌%◌, ◌^◌, ◌≡◌, refl, sym, ap, ◌∙◌, ◌⊎◌, inl, inr, Bool, false, ◌||◌, Option, none,
  some, is_some, List, [], ◌∷◌, arith, if◌then◌else◌,
}
use focus_vision_pcvr.Prelude.F32
use focus_vision_pcvr.Pipeline.Sliced.{FrameFecEncoder}
use focus_vision_pcvr.Sleep.{
  Position, SleepDetector, SleepTransition, sleep, wake, update, on_motion, on_idle,
}
use focus_vision_pcvr.Adaptive.Controller.{BitrateController, setting_mbps}
use focus_vision_pcvr.Adaptive.Controller.Bounds.{IsBounded, adjust-IsBounded, thermal-IsBounded}
use focus_vision_pcvr.Adaptive.FecControl.Within.{IsNumeric}
use focus_vision_pcvr.Engine.Control.{HmdStats, ControlEvent}
use focus_vision_pcvr.Engine.Frames.{notice_of, check_sleep_mode}
use focus_vision_pcvr.Engine.Adaptive.{
  Settings, Driving, Floats, on_event, tick_gcc, tick_loss, tick_stats, tick_pending, tick,
}
use focus_vision_pcvr.Engine.Adaptive.Frame.{cap, noticed, check_sleep, on_frame}
use focus_vision_pcvr.Engine.Adaptive.InStep.{
  IsDriven, if-IsDriven, adjust-Stays, moved-IsDriven, start, start-IsDriven, off_event,
  event-IsDriven, adjust_fec-IsDriven, respond-IsDriven,
}

tick_gcc-IsDriven :
    {off : Bool} (fl : Floats) (numeric : IsNumeric fl.single) (now : ℕ) (stats : HmdStats)
    (d : Driving)
    → IsDriven off d
    → IsDriven off (tick_gcc fl now stats d)
unfolding tick_gcc
tick_gcc-IsDriven fl numeric now stats d h = respond-IsDriven fl numeric now _ (
    moved-IsDriven _ _ (adjust-IsBounded fl.times now _ d.adaptive.bitrate_ctrl h.bitrate)
      (adjust-Stays fl.times now _ d.adaptive.bitrate_ctrl)
      (record {
        in_step = h.in_step;
        told = h.told;
        bitrate = h.bitrate;
        redundancy = h.redundancy;
        delay = h.delay;
      }))

tick_loss-IsDriven :
    {off : Bool} (fl : Floats) (numeric : IsNumeric fl.single) (now : ℕ) (d : Driving)
    → IsDriven off d
    → IsDriven off (tick_loss fl now d)
unfolding tick_loss
tick_loss-IsDriven fl numeric now d h =
    let m =
      moved-IsDriven _ d (adjust-IsBounded fl.times now _ d.adaptive.bitrate_ctrl h.bitrate)
        (adjust-Stays fl.times now _ d.adaptive.bitrate_ctrl) h in
    adjust_fec-IsDriven fl numeric now _ _ m.redundancy m

tick_pending-IsDriven :
    {off : Bool} (fl : Floats) (numeric : IsNumeric fl.single) (now : ℕ) (o : Option HmdStats)
    (d : Driving)
    → IsDriven off d
    → IsDriven off (tick_pending fl now o d)
unfolding tick_pending tick_stats
tick_pending-IsDriven fl numeric now none d h = h
tick_pending-IsDriven {off} fl numeric now (some stats) d h =
    let seen : IsDriven off _ = record {
      in_step = h.in_step;
      told = h.told;
      bitrate = h.bitrate;
      redundancy = h.redundancy;
      delay = h.delay;
    } in
    if-IsDriven d.adaptive.gcc_enabled _ _ (tick_gcc-IsDriven fl numeric now stats _ seen)
      (tick_loss-IsDriven fl numeric now _ seen)

tick-IsDriven :
    {off : Bool} (fl : Floats) (numeric : IsNumeric fl.single) (now : ℕ) (d : Driving)
    → IsDriven off d
    → IsDriven off (tick fl now d)
unfolding tick
tick-IsDriven fl numeric now d h = tick_pending-IsDriven fl numeric now d.adaptive.pending_stats d h

-- The encoder is not told of a thermal ceiling.
cap-IsDriven :
    {off : Bool} (times : ℕ → ℕ → ℕ) (multiplier : Option ℕ) (d : Driving)
    → IsDriven off d
    → IsDriven (is_some multiplier || off) (cap times multiplier d)
unfolding cap
cap-IsDriven times none d h = h
cap-IsDriven times (some multiplier) d h = record {
  in_step = inl refl;
  told = h.told;
  bitrate = thermal-IsBounded _ d.adaptive.bitrate_ctrl h.bitrate;
  redundancy = h.redundancy;
  delay = h.delay;
}

-- A change of the sleep detector that keeps its bitrate.
update-bitrate :
    (distance : Position → Position → ℕ) (pos : Position) (s : SleepDetector)
    → (update distance pos s).0.sleep_bitrate_mbps ≡ s.sleep_bitrate_mbps
unfolding update on_motion on_idle
update-bitrate distance pos s = ground (arith)

setting_told :
    (c : BitrateController)
    → IsBounded c
    → (10_000_000 ≤ setting_mbps c * 1_000_000 % 2 ^ 32)
      × (setting_mbps c * 1_000_000 % 2 ^ 32 ≤ 200_000_000)
unfolding setting_mbps
setting_told c h = (omega (arith, h.ceiling), omega (arith, h.ceiling))

told_still :
    {A : Type 0} (bps m m' : ℕ)
    → m' ≡ m
    → A ⊎ (bps ≡ m * 1_000_000 % 2 ^ 32)
    → A ⊎ (bps ≡ m' * 1_000_000 % 2 ^ 32)
told_still bps m m' same (inl a) = inl a
told_still bps m m' same (inr e) = inr (e ∙ ap (λ n. n * 1_000_000 % 2 ^ 32) (sym same))

noticed-IsDriven :
    {off : Bool} (u : SleepDetector × Option SleepTransition) (d : Driving)
    → u.0.sleep_bitrate_mbps ≡ d.adaptive.sleep_detector.sleep_bitrate_mbps
    → IsDriven off d
    → IsDriven (is_some u.1 || off) (noticed (notice_of (setting_mbps d.adaptive.bitrate_ctrl) u) d)
noticed-IsDriven (s, none) d same h = record {
  in_step = h.in_step;
  told = told_still d.encoder_bps _ s.sleep_bitrate_mbps same h.told;
  bitrate = h.bitrate;
  redundancy = h.redundancy;
  delay = h.delay;
}
noticed-IsDriven (s, some sleep) d same h = record {
  in_step = inl refl;
  told = inr refl;
  bitrate = h.bitrate;
  redundancy = h.redundancy;
  delay = h.delay;
}
noticed-IsDriven (s, some wake) d same h = record {
  in_step = inl refl;
  told = inl (setting_told d.adaptive.bitrate_ctrl h.bitrate);
  bitrate = h.bitrate;
  redundancy = h.redundancy;
  delay = h.delay;
}

-- The sleep check falls asleep or wakes up.
abbrev turns : (Position → Position → ℕ) → Option Position → SleepDetector → Bool
turns distance none s = false
turns distance (some pos) s = is_some (update distance pos s).1

check_sleep-IsDriven :
    {off : Bool} (fl : Floats) (distance : Position → Position → ℕ) (head : Option Position)
    (d : Driving)
    → IsDriven off d
    → IsDriven
        (turns distance head d.adaptive.sleep_detector || off)
        (check_sleep fl distance head d)
unfolding check_sleep check_sleep_mode
check_sleep-IsDriven fl distance none d h = record {
  in_step = h.in_step;
  told = h.told;
  bitrate = h.bitrate;
  redundancy = h.redundancy;
  delay = h.delay;
}
check_sleep-IsDriven fl distance (some pos) d h =
    noticed-IsDriven (update distance pos d.adaptive.sleep_detector) d
      (update-bitrate distance pos d.adaptive.sleep_detector) h

-- What happens to the state while a session runs: an event of the control connection, or a frame.
pub data Input : Type 0 where
  event : ℕ → ControlEvent → Input
  frame : ℕ → Bool → Option ℕ → Option Position → Input

module _ (fl : Floats) (distance : Position → Position → ℕ) where
  unfoldable pub drive : List Input → Driving → Driving
  unfolding on_event on_frame
  drive [] d = d
  drive (event now e ∷ inputs) d = drive inputs (on_event fl now e d)
  drive (frame now due multiplier head ∷ inputs) d =
      drive inputs (on_frame fl distance now due multiplier head d)

  -- Since the last setting of the bitrate, a thermal ceiling was set or the sleep mode changed.
  unfoldable pub disturbed : List Input → Bool → Driving → Bool
  unfolding drive on_event on_frame
  disturbed [] off d = off
  disturbed (event now e ∷ inputs) off d = disturbed inputs (off_event e off) (on_event fl now e d)
  disturbed (frame now due multiplier head ∷ inputs) off d =
      let capped = cap fl.times multiplier (if due then tick fl now d else d) in
      disturbed inputs
        (turns distance head capped.adaptive.sleep_detector || (is_some multiplier || off))
        (on_frame fl distance now due multiplier head d)

  drive_from :
      (numeric : IsNumeric fl.single) (inputs : List Input) (off : Bool) (d : Driving)
      → IsDriven off d
      → IsDriven (disturbed inputs off d) (drive inputs d)
  unfolding drive disturbed on_frame
  drive_from numeric [] off d h = h
  drive_from numeric (event now e ∷ inputs) off d h =
      drive_from numeric inputs (off_event e off) (on_event fl now e d)
        (event-IsDriven fl now e d h)
  drive_from numeric (frame now due multiplier head ∷ inputs) off d h =
      drive_from numeric inputs _ _ (
        check_sleep-IsDriven fl distance head _ (
          cap-IsDriven fl.times multiplier _
            (if-IsDriven due _ d (tick-IsDriven fl numeric now d h) h)))

  -- From the start of a session, where it does not panic and the initial redundancy is a number,
  -- whatever events and frames follow in whatever order: the encoder was last told a bitrate from 10 to
  -- 200 Mbps or the bitrate of the sleep mode, in 32 bits; and it is the controller's bitrate, unless
  -- since the last bitrate setting from the headset a thermal ceiling was set or the sleep mode entered
  -- or left. The controller's bitrate is within its bounds, the redundancy is a number within its own,
  -- and the delay estimator keeps at most 60 samples. The float operations are assumed to give numbers
  -- where they add or subtract numbers from 0 to 1, or a step to one.
  pub drive-IsDriven :
      (numeric : IsNumeric fl.single) (inputs : List Input) (now : ℕ) (s : Settings) (old_bps : ℕ)
      (fec : FrameFecEncoder) (d : Driving)
      → F32.is_nan s.fec_redundancy ≡ false
      → start now s old_bps fec ≡ some d
      → IsDriven (disturbed inputs false d) (drive inputs d)
  drive-IsDriven numeric inputs now s old_bps fec d number started =
      drive_from numeric inputs false d (start-IsDriven now s old_bps fec d number started)
