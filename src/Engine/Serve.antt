-- ===== src/Engine/Serve.antt =====
-- `handle_tcp_control` of engine.rs: what the connection does on the bytes it reads, on silence, and on
-- what the engine sends.
pub mod Segments
pub mod Delivery
pub mod Rates
use focus_vision_pcvr.Prelude.{
  ℕ, zero, suc, Bool, Option, none, some, List, [], ◌∷◌, ◌++◌, length, get_or, drop, ◌==◌,
  if◌then◌else◌, Result, ok, err,
}
use focus_vision_pcvr.Engine.Haptic.{HapticEvent, to_payload}
use focus_vision_pcvr.Engine.Inbox.{Taken, take_control_message}
use focus_vision_pcvr.Engine.Control.{
  DisconnectReason, client_requested, connection_lost, protocol_error, Channel, send,
  on_idr_request, on_heartbeat, on_face_data, on_transport_feedback, on_view_config,
}
use focus_vision_pcvr.Engine.Settings.{on_config_update}

abbrev pub msg_heartbeat : ℕ
msg_heartbeat = 0x10

abbrev pub msg_transport_feedback : ℕ
msg_transport_feedback = 0x12

abbrev pub msg_view_config : ℕ
msg_view_config = 0x22

abbrev pub msg_idr_request : ℕ
msg_idr_request = 0x30

abbrev pub msg_face_data : ℕ
msg_face_data = 0x35

abbrev pub msg_haptic_event : ℕ
msg_haptic_event = 0x38

abbrev pub msg_sleep_enter : ℕ
msg_sleep_enter = 0x50

abbrev pub msg_sleep_exit : ℕ
msg_sleep_exit = 0x51

abbrev pub msg_config_update : ℕ
msg_config_update = 0x55

abbrev pub msg_disconnect : ℕ
msg_disconnect = 0xff

-- A message that goes on; one of an unknown type is skipped.
unfoldable pub handle_message : ℕ → ℕ → List ℕ → Channel → Channel
handle_message now msg_type payload c =
    if msg_type == msg_idr_request
    then on_idr_request now c
    else (if msg_type == msg_heartbeat
        then on_heartbeat now payload c
        else (if msg_type == msg_face_data
            then on_face_data now payload c
            else (if msg_type == msg_transport_feedback
                then on_transport_feedback now payload c
                else (if msg_type == msg_config_update
                    then on_config_update now payload c
                    else (if msg_type == msg_view_config
                        then on_view_config now payload c
                        else c)))))

-- The connection goes on with what is left in the inbox, or it has ended and the session is cancelled.
pub data Served : Type 0 where
  going : List ℕ → Channel → Served
  ended : DisconnectReason → Channel → Served

abbrev pub and_then : Served → (List ℕ → Channel → Served) → Served
and_then (going inbox c) next = next inbox c
and_then (ended reason c) next = ended reason c

-- What is done with what was taken; `next` serves what is left.
unfoldable pub serve_taken : ℕ → Taken → Channel → (List ℕ → Channel → Served) → Served
unfolding handle_message
serve_taken now (ok none, rest) c next = going rest c
serve_taken now (err len, rest) c next = ended protocol_error c
serve_taken now (ok (some msg), rest) c next =
    let msg_type = get_or msg 0 0 in
    if msg_type == msg_disconnect
    then ended client_requested c
    else next rest (handle_message now msg_type (drop 1 msg) c)

unfoldable pub serve_rounds : ℕ → ℕ → List ℕ → Channel → Served
unfolding serve_taken take_control_message
serve_rounds zero now inbox c = going inbox c
serve_rounds (suc fuel) now inbox c =
    let next = serve_rounds fuel now in serve_taken now (take_control_message inbox) c next

-- Every complete message in the inbox.
unfoldable pub serve : ℕ → List ℕ → Channel → Served
unfolding serve_rounds
serve now inbox c = serve_rounds (suc (length inbox)) now inbox c

-- A read that gives nothing means that the connection is closed.
unfoldable pub on_read : ℕ → List ℕ → List ℕ → Channel → Served
unfolding serve
on_read now [] inbox c = ended connection_lost c
on_read now (b ∷ chunk) inbox c = serve now (inbox ++ (b ∷ chunk)) c

-- What `select!` may wake up for.
pub data Wake : Type 0 where
  read : List ℕ → Wake
  read_failed : Wake
  silence : Wake
  haptic : HapticEvent → Wake
  sleeping : Bool → Wake

unfoldable pub on_wake : ℕ → Wake → List ℕ → Channel → Served
unfolding on_read
on_wake now (read chunk) inbox c = on_read now chunk inbox c
on_wake now read_failed inbox c = ended connection_lost c
on_wake now silence inbox c = ended connection_lost c
on_wake now (haptic e) inbox c = going inbox (send now msg_haptic_event (to_payload e) c)
on_wake now (sleeping is_sleep) inbox c =
    going inbox (send now (if is_sleep then msg_sleep_enter else msg_sleep_exit) [] c)

-- A run of the loop: what it wakes up for, each with its instant.
unfoldable pub run : List (ℕ × Wake) → List ℕ → Channel → Served
unfolding on_wake
run [] inbox c = going inbox c
run ((now, w) ∷ wakes) inbox c = and_then (on_wake now w inbox c) (run wakes)
