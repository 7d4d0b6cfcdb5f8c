-- ===== src/Sleep/Transitions.antt =====
-- The detector as a state machine.
use focus_vision_pcvr.Prelude.{
  ℕ, ◌+◌, ◌*◌, ◌%◌, ◌^◌, ◌≡◌, refl, Bool, true, false, not, ◌&&◌, Option, none, some, List, [], ◌∷◌,
  ◌++◌, arith, present, leb, if◌then◌else◌, Bool-cases, inl, inr,
}
use focus_vision_pcvr.Prelude.F32.{lt}
use focus_vision_pcvr.Sleep.{
  Position, SleepDetector, SleepTransition, sleep, wake, on_motion, on_idle, update, force_wake,
  motion_from,
}

-- What comes in: a tracking sample, or a controller's input.
pub data Input : Type 0 where
  sample : Position → Input
  button : Input

-- A transition is the one that the state calls for, and leaves the state that it names.
abbrev pub Follows : Bool → Option SleepTransition → Bool → Type 0
Follows before none after = before ≡ after
Follows before (some sleep) after = (before ≡ false) × (after ≡ true)
Follows before (some wake) after = (before ≡ true) × (after ≡ false)

abbrev pub Steps : SleepDetector → SleepDetector × Option SleepTransition → Type 0
Steps d r = Follows d.is_sleeping r.1 r.0.is_sleeping

on_motion-Steps : (d : SleepDetector) → Steps d (on_motion d)
unfolding on_motion
on_motion-Steps d = elim (Bool-cases d.is_sleeping) [
  | inl e ↦ rw e (refl, refl)
  | inr e ↦ rw e refl
]

on_idle-Steps : (d : SleepDetector) → Steps d (on_idle d)
unfolding on_idle
on_idle-Steps d =
    elim (Bool-cases
      (not d.is_sleeping && leb (90 * d.timeout_seconds) ((d.idle_frames + 1) % 2 ^ 64))) [
        | inl e ↦ rw e (ground (arith, e), refl)
        | inr e ↦ rw e refl
      ]

force_wake-Steps : (d : SleepDetector) → Steps d (force_wake d)
unfolding force_wake
force_wake-Steps d = elim (Bool-cases d.is_sleeping) [
  | inl e ↦ rw e (refl, refl)
  | inr e ↦ rw e refl
]

if-Steps :
    (b : Bool) (d : SleepDetector) (r r' : SleepDetector × Option SleepTransition)
    → Steps d r
    → Steps d r'
    → Steps d (if b then r else r')
if-Steps true d r r' h h' = h
if-Steps false d r r' h h' = h'

-- Transitions alternate, the first being the one that the state calls for.
abbrev pub Alternates : Bool → List SleepTransition → Type 0
Alternates sleeping [] = Unit
Alternates sleeping (sleep ∷ ts) = (sleeping ≡ false) × Alternates true ts
Alternates sleeping (wake ∷ ts) = (sleeping ≡ true) × Alternates false ts

module _ (distance : Position → Position → ℕ) where
  unfoldable pub take_input : Input → SleepDetector → SleepDetector × Option SleepTransition
  take_input (sample pos) d = update distance pos d
  take_input button d = force_wake d

  -- The transitions that a sequence of inputs gives.
  unfoldable pub take_inputs : List Input → SleepDetector → SleepDetector × List SleepTransition
  take_inputs [] d = (d, [])
  take_inputs (i ∷ inputs) d =
      let (d', out) = take_input i d in
      let (d'', outs) = take_inputs inputs d' in (d'', present (out ∷ []) ++ outs)

  update-Steps : (pos : Position) (d : SleepDetector) → Steps d (update distance pos d)
  unfolding update
  update-Steps pos d =
      let seen : SleepDetector = record d { prev_position = some pos } in
      if-Steps (not d.enabled) d (d, none) _ refl
        (if-Steps (lt d.motion_threshold (motion_from distance d.prev_position pos)) d
          (on_motion seen) (on_idle seen) (on_motion-Steps seen) (on_idle-Steps seen))

  take_input-Steps : (i : Input) (d : SleepDetector) → Steps d (take_input i d)
  unfolding take_input
  take_input-Steps (sample pos) d = update-Steps pos d
  take_input-Steps button d = force_wake-Steps d

  Follows-Alternates :
      (before after : Bool) (out : Option SleepTransition) (ts : List SleepTransition)
      → Follows before out after
      → Alternates after ts
      → Alternates before (present (out ∷ []) ++ ts)
  Follows-Alternates before after none ts h later = rw h later
  Follows-Alternates before after (some sleep) ts h later = (h.0, rw (h.1) at later)
  Follows-Alternates before after (some wake) ts h later = (h.0, rw (h.1) at later)

  -- From any state, whatever samples and controller inputs come and whatever the distances are, the
  -- transitions alternate: a wake comes only while asleep, a sleep only while awake.
  pub take_inputs-Alternates :
      (inputs : List Input) (d : SleepDetector) → Alternates d.is_sleeping (take_inputs inputs d).1
  unfolding take_inputs
  take_inputs-Alternates [] d = tt
  take_inputs-Alternates (i ∷ inputs) d =
      Follows-Alternates d.is_sleeping (take_input i d).0.is_sleeping (take_input i d).1
        (take_inputs inputs (take_input i d).0).1 (take_input-Steps i d)
        (take_inputs-Alternates inputs (take_input i d).0)
