-- ===== src/Engine/Settings.antt =====
-- CONFIG_UPDATE of engine.rs, with the recording toggles of recording/mod.rs.
use focus_vision_pcvr.Prelude.{
  ℕ, ◌-◌, Bool, true, false, ◌&&◌, List, [], ◌∷◌, length, get_or, ltb, leb, ◌==◌, if◌then◌else◌,
}
use focus_vision_pcvr.Prelude.Words.{le_at}
use focus_vision_pcvr.Adaptive.Controller.{min_bitrate_mbps, max_bitrate_mbps}
use focus_vision_pcvr.Engine.Control.{bitrate_setting, forward, Channel, call, send}

abbrev pub ack_rejected : ℕ
ack_rejected = 0

abbrev pub ack_accepted : ℕ
ack_accepted = 1

-- The flag afterwards, and the status to answer with.
unfoldable pub apply_recording_config_update : ℕ → Bool → Bool × ℕ
apply_recording_config_update value state =
    if value == 0
    then (false, ack_accepted)
    else (if value == 1 then (true, ack_accepted) else (state, ack_rejected))

unfoldable pub apply_audio_recording_config_update : ℕ → Bool → Bool × ℕ
apply_audio_recording_config_update value state =
    if value == 0
    then (false, ack_accepted)
    else (if value == 1 then (true, ack_accepted) else (state, ack_rejected))

-- `CONFIG_UPDATE_MIN_INTERVAL_MS`
abbrev pub config_update_min_interval : ℕ
config_update_min_interval = 1_000_000

-- `CONFIG_UPDATE_ACK`
abbrev pub config_update_ack : ℕ
config_update_ack = 0x56

unfoldable pub update_bitrate : ℕ → ℕ → Channel → Channel × ℕ
unfolding call
update_bitrate now value c =
    if leb min_bitrate_mbps value && leb value max_bitrate_mbps
    then (call now (forward (bitrate_setting value)) c, ack_accepted)
    else (c, ack_rejected)

unfoldable pub update_recording : ℕ → Channel → Channel × ℕ
unfolding apply_recording_config_update
update_recording value c =
    let applied = apply_recording_config_update value c.recording_enabled in
    (record c { recording_enabled = applied.0 }, applied.1)

unfoldable pub update_audio_recording : ℕ → Channel → Channel × ℕ
unfolding apply_audio_recording_config_update
update_audio_recording value c =
    let applied = apply_audio_recording_config_update value c.audio_recording_enabled in
    (record c { audio_recording_enabled = applied.0 }, applied.1)

-- The codec (key 2) takes effect at the next start only, and every other key is unknown.
unfoldable pub apply_update : ℕ → ℕ → ℕ → Channel → Channel × ℕ
unfolding update_bitrate update_recording update_audio_recording
apply_update now key value c =
    if key == 1
    then update_bitrate now value c
    else (if key == 2
        then (c, ack_rejected)
        else (if key == 3
            then update_recording value c
            else (if key == 5 then update_audio_recording value c else (c, ack_rejected))))

unfoldable pub on_config_update : ℕ → List ℕ → Channel → Channel
unfolding apply_update send
on_config_update now payload c =
    if ltb (now - c.last_config_update) config_update_min_interval
    then c
    else (if leb 5 (length payload)
        then (let key = get_or payload 0 0 in
            let applied =
              apply_update now key (le_at 4 1 payload) (record c { last_config_update = now }) in
            send now config_update_ack (applied.1 ∷ key ∷ []) applied.0)
        else c)
