-- ===== src/Control/Handshake.antt =====
-- The handshake of control/tcp_server.rs: HELLO, PIN, STREAM_CONFIG, STREAM_START. The client's bytes
-- that arrive within the limits are a list, and what the server writes is a list; a read that finds
-- too few bytes stands for the end of the stream and for a limit that runs out alike. A write
-- succeeds. The clock reading and the random number are those of the PIN check.
pub mod Safety
pub mod Completes
use focus_vision_pcvr.Prelude.{
  ℕ, ◌+◌, Bool, true, false, not, ◌||◌, List, [], ◌∷◌, ◌++◌, length, ltb, ◌==◌, if◌then◌else◌,
  Result, ok, err,
}
use focus_vision_pcvr.Prelude.Words.{le_at}
use focus_vision_pcvr.Protocol.Hello.{parse_hello_caps, encode_version, protocol_version}
use focus_vision_pcvr.Control.Pairing.{Clock, World, Answer, verify}
use focus_vision_pcvr.Control.Framing.{IoError, Message, Reading, read_message, send_message}
use focus_vision_pcvr.Control.StreamConfig.{VideoConfig, encode_stream_config}

abbrev pub hello : ℕ
hello = 0x01

abbrev pub hello_ack : ℕ
hello_ack = 0x02

abbrev pub pin_request : ℕ
pin_request = 0x03

abbrev pub pin_response : ℕ
pin_response = 0x04

abbrev pub pin_result : ℕ
pin_result = 0x05

abbrev pub stream_config : ℕ
stream_config = 0x06

abbrev pub stream_start : ℕ
stream_start = 0x07

pub data HandshakeError : Type 0 where
  read_failed : IoError → HandshakeError
  unexpected_message : ℕ → HandshakeError
  pin_rejected : HandshakeError

-- The connection's two directions and what the server keeps.
pub record Server : Type 0 where
  pub input : List ℕ
  pub output : List ℕ
  pub client_caps : ℕ
  pub pairing : World

abbrev pub Outcome : Type 0 → Type 0
Outcome A = Server × Result {0, 0} HandshakeError A

-- `?` after a step.
abbrev pub and_then : {A B : Type 0} → Outcome A → (A → Server → Outcome B) → Outcome B
and_then (s, ok a) next = next a s
and_then (s, err e) next = (s, err e)

unfoldable pub send : ℕ → List ℕ → Server → Server
send msg_type payload s = record s {
  output = s.output ++ send_message (record { msg_type = msg_type; payload = payload });
}

abbrev pub took : Server → Reading → Outcome Message
took s (ok (m, rest)) = (record s { input = rest }, ok m)
took s (err e) = (s, err (read_failed e))

unfoldable pub read_step_message : Server → Outcome Message
read_step_message s = took s (read_message s.input)

unfoldable pub answer_hello : Message → Server → Outcome ℕ
unfolding send
answer_hello m s =
    if m.msg_type == hello
    then (send hello_ack (encode_version protocol_version) s, ok (parse_hello_caps m.payload))
    else (s, err (unexpected_message m.msg_type))

unfoldable pub step_hello_exchange : Server → Outcome ℕ
unfolding read_step_message answer_hello
step_hello_exchange s = and_then (read_step_message s) answer_hello

-- What is sent for the answer of the PIN check.
unfoldable pub report_pin : World × Answer → Server → Outcome Unit
unfolding send
report_pin (w, ok u) s = (send pin_result (0x01 ∷ []) (record s { pairing = w }), ok u)
report_pin (w, err e) s = (send pin_result (0x00 ∷ []) (record s { pairing = w }), err pin_rejected)

unfoldable pub check_pin : Clock → ℕ → Message → Server → Outcome Unit
unfolding report_pin
check_pin now random m s =
    if not (m.msg_type == pin_response) || ltb (length m.payload) 4
    then (s, err (unexpected_message m.msg_type))
    else report_pin (verify now random (le_at 4 0 m.payload) s.pairing) s

unfoldable pub step_pin_pairing : Clock → ℕ → Server → Outcome Unit
unfolding send read_step_message check_pin
step_pin_pairing now random s =
    and_then (read_step_message (send pin_request [] s)) (check_pin now random)

unfoldable pub step_stream_config : List ℕ → Server → Server
unfolding send
step_stream_config config_bytes s = send stream_config config_bytes s

unfoldable pub expect_start : Message → Server → Outcome Unit
expect_start m s =
    if m.msg_type == stream_start then (s, ok tt) else (s, err (unexpected_message m.msg_type))

unfoldable pub step_stream_start : Server → Outcome Unit
unfolding read_step_message expect_start
step_stream_start s = and_then (read_step_message s) expect_start

module _ (scaled : ℕ → ℕ → ℕ) (video : VideoConfig) where
  -- After the PIN.
  unfoldable pub start_streaming : ℕ → Server → Outcome Unit
  unfolding step_stream_config step_stream_start
  start_streaming caps s =
      step_stream_start (step_stream_config (encode_stream_config scaled video caps) s)

  unfoldable pub handle_handshake : Clock → ℕ → Server → Outcome Unit
  unfolding step_hello_exchange step_pin_pairing start_streaming
  handle_handshake now random s = and_then (step_hello_exchange s) (λ caps s₁.
      and_then (step_pin_pairing now random (record s₁ { client_caps = caps }))
        (λ u s₂. start_streaming caps s₂))
