-- ===== src/Engine/Control.antt =====
-- The messages of a session's control connection: the handlers of `handle_tcp_control` in engine.rs,
-- with the recording toggles of recording/mod.rs. Instants are microseconds.
use focus_vision_pcvr.Prelude.{
  ℕ, ◌+◌, ◌-◌, ◌%◌, ◌^◌, Bool, Option, none, some, List, [], ◌∷◌, ◌++◌, length, leb, if◌then◌else◌,
}
use focus_vision_pcvr.Prelude.Words.{to_le_bytes, le_at}
use focus_vision_pcvr.Protocol.Feedback.{TransportFeedbackEntry, parse_transport_feedback}
use focus_vision_pcvr.Protocol.ViewConfig.{ViewConfig, parse_view_config}
use focus_vision_pcvr.Control.Framing.{Message}
use focus_vision_pcvr.Engine.FaceData.{FaceData, parse_face_data}

pub record HmdStats : Type 0 where
  pub packets_received : ℕ
  pub packets_lost : ℕ
  pub avg_decode_us : ℕ
  pub fps : ℕ

pub data DisconnectReason : Type 0 where
  client_requested : DisconnectReason
  connection_lost : DisconnectReason
  protocol_error : DisconnectReason

pub data ControlEvent : Type 0 where
  heartbeat : HmdStats → ControlEvent
  transport_feedback : List TransportFeedbackEntry → ControlEvent
  bitrate_setting : ℕ → ControlEvent

-- What the handlers call outside.
pub data Call : Type 0 where
  notify_idr_request : Call
  forward : ControlEvent → Call
  send_face_data : FaceData → Call
  notify_view_config : ViewConfig → Call
  send_msg : Message → Call

-- What the handlers keep and the flags and latencies they share with the engine. The calls stand
-- with their instants, the latest first.
pub record Channel : Type 0 where
  pub last_config_update : ℕ
  pub last_idr_time : ℕ
  pub idr_suppressed : ℕ
  pub recording_enabled : Bool
  pub audio_recording_enabled : Bool
  pub pc_encode_latency_us : ℕ
  pub pc_total_latency_us : ℕ
  pub calls : List (ℕ × Call)

-- A connection that starts: both limits have just run out.
unfoldable pub open_at : ℕ → Bool → Bool → Channel
open_at now recording audio = record {
  last_config_update = now - 2_000_000;
  last_idr_time = now - 1_000_000;
  idr_suppressed = 0;
  recording_enabled = recording;
  audio_recording_enabled = audio;
  pc_encode_latency_us = 0;
  pc_total_latency_us = 0;
  calls = [];
}

unfoldable pub call : ℕ → Call → Channel → Channel
call now e c = record c { calls = (now, e) ∷ c.calls }

unfoldable pub send : ℕ → ℕ → List ℕ → Channel → Channel
unfolding call
send now msg_type payload c =
    call now (send_msg (record { msg_type = msg_type; payload = payload })) c

abbrev pub idr_interval : ℕ
idr_interval = 500_000

unfoldable pub on_idr_request : ℕ → Channel → Channel
unfolding call
on_idr_request now c =
    if leb idr_interval (now - c.last_idr_time)
    then call now notify_idr_request (record c { last_idr_time = now })
    else record c { idr_suppressed = (c.idr_suppressed + 1) % 2 ^ 64 }

-- `HEARTBEAT_ACK`
abbrev pub heartbeat_ack : ℕ
heartbeat_ack = 0x11

-- The stats stand behind twelve bytes.
unfoldable pub stats_of : List ℕ → HmdStats
stats_of payload = record {
  packets_received = le_at 4 12 payload;
  packets_lost = le_at 4 16 payload;
  avg_decode_us = le_at 4 20 payload;
  fps = le_at 2 24 payload;
}

unfoldable pub on_heartbeat : ℕ → List ℕ → Channel → Channel
unfolding call send stats_of
on_heartbeat now payload c =
    if leb 26 (length payload)
    then send now heartbeat_ack
        (to_le_bytes 4 c.pc_encode_latency_us ++ to_le_bytes 4 c.pc_total_latency_us)
        (call now (forward (heartbeat (stats_of payload))) c)
    else c

abbrev call_some : {A : Type 0} → ℕ → (A → Call) → Option A → Channel → Channel
call_some now make none c = c
call_some now make (some a) c = record c { calls = (now, make a) ∷ c.calls }

unfoldable pub on_face_data : ℕ → List ℕ → Channel → Channel
on_face_data now payload c = call_some now send_face_data (parse_face_data payload) c

unfoldable pub on_transport_feedback : ℕ → List ℕ → Channel → Channel
on_transport_feedback now payload c =
    call_some now (λ entries. forward (transport_feedback entries))
      (parse_transport_feedback payload) c

unfoldable pub on_view_config : ℕ → List ℕ → Channel → Channel
on_view_config now payload c = call_some now notify_view_config (parse_view_config payload) c
