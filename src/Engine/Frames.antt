-- ===== src/Engine/Frames.antt =====
-- What the driver asks of the engine between frames, and the sleep check of the frame loop: engine.rs.
-- An instant is a number of microseconds; whether a lock is free and whether the channel has room are
-- arguments.
use focus_vision_pcvr.Prelude.{
  ℕ, ◌-◌, ◌*◌, ◌%◌, ◌^◌, Bool, true, false, not, ◌||◌, Option, none, some, List, ◌∷◌, leb,
  if◌then◌else◌,
}
use focus_vision_pcvr.Sleep.{Position, SleepDetector, SleepTransition, sleep, wake, update}
use focus_vision_pcvr.Recording.{Written}
use focus_vision_pcvr.Recording.Annexb.{Recorder, write_nal}
use focus_vision_pcvr.Engine.Sender.{EncodedFrame}

abbrev pub controller_stale_after : ℕ
controller_stale_after = 250_000

-- A state and when it arrived.
unfoldable pub fresh_controller_state {ℓ} : {A : Type ℓ} → Option (A × ℕ) → ℕ → Option A
fresh_controller_state none now = none
fresh_controller_state (some (state, received_at)) now =
    if leb (now - received_at) controller_stale_after then some state else none

-- What the frame loop sends out on a change: a bitrate for the encoder, and whether the headset is to
-- sleep.
pub record SleepNotice : Type 0 where
  pub bitrate_bps : ℕ
  pub sleeps : Bool

abbrev pub notice_of :
    ℕ → SleepDetector × Option SleepTransition → SleepDetector × Option SleepNotice
notice_of normal_bitrate_mbps (d, none) = (d, none)
notice_of normal_bitrate_mbps (d, some sleep) =
    (d, some (record { bitrate_bps = d.sleep_bitrate_mbps * 1_000_000 % 2 ^ 32; sleeps = true }))
notice_of normal_bitrate_mbps (d, some wake) =
    (d, some (record { bitrate_bps = normal_bitrate_mbps * 1_000_000 % 2 ^ 32; sleeps = false }))

module _ (distance : Position → Position → ℕ) where
  -- Without a position from the headset nothing is checked.
  unfoldable pub check_sleep_mode :
      ℕ → Option Position → SleepDetector → SleepDetector × Option SleepNotice
  unfolding update
  check_sleep_mode normal_bitrate_mbps none d = (d, none)
  check_sleep_mode normal_bitrate_mbps (some pos) d =
      notice_of normal_bitrate_mbps (update distance pos d)

-- `free`: whether the recorder's lock is.
unfoldable pub write_recording_nal :
    Bool → Bool → Written → Written → List ℕ → Option Recorder → Option Recorder
unfolding write_nal
write_recording_nal enabled free code_written unit_written nal none = none
write_recording_nal enabled free code_written unit_written nal (some r) =
    if not enabled || not free then some r else some (write_nal code_written unit_written nal r)

-- The recorder has the frame also where the channel to the frame loop rejects it.
unfoldable pub submit_frame :
    Bool
    → Bool
    → Written
    → Written
    → Bool
    → EncodedFrame
    → Option Recorder × List EncodedFrame
    → (Option Recorder × List EncodedFrame) × Bool
unfolding write_recording_nal
submit_frame enabled free code_written unit_written room frame (recorder, queued) = (
  (
    write_recording_nal enabled free code_written unit_written frame.nal_data recorder,
    if room then frame ∷ queued else queued,
  ),
  room,
)
