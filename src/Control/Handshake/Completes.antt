-- ===== src/Control/Handshake/Completes.antt =====
-- A client with the PIN gets through, and what it is sent.
use focus_vision_pcvr.Prelude.{
  ℕ, suc, le→not_ltb, ◌∙◌, ap, append_assoc, append-nil, ◌^◌, ◌<◌, ◌≡◌, refl, true, false, List, [],
  ◌∷◌, ◌++◌, length, arith, ok,
}
use focus_vision_pcvr.Prelude.Words.{to_le_bytes, from_le_bytes-to_le_bytes}
use focus_vision_pcvr.Protocol.Hello.{
  parse_hello_caps, encode_hello, encode_version, protocol_version,
}
use focus_vision_pcvr.Control.Pairing.{Clock, World, verify, is_locked, pin_matches, accept_pin}
use focus_vision_pcvr.Control.Framing.{Message, send_message, read-send_message, send_all}
use focus_vision_pcvr.Control.StreamConfig.{VideoConfig, encode_stream_config}
use focus_vision_pcvr.Control.Handshake.{
  Server, Outcome, and_then, send, read_step_message, answer_hello, step_hello_exchange, report_pin,
  check_pin, step_pin_pairing, step_stream_config, expect_start, step_stream_start,
  handle_handshake, hello, hello_ack, pin_request, pin_response, pin_result, stream_config,
  stream_start,
}

abbrev pub says : ℕ → List ℕ → Message
says msg_type payload = record { msg_type = msg_type; payload = payload }

-- A step reads the message that a client has sent.
read_step-sent :
    (s : Server) (m : Message) (rest : List ℕ)
    → s.input ≡ send_message m ++ rest
    → length m.payload < 65536
    → read_step_message s ≡ (record s { input = rest }, ok m)
unfolding read_step_message
read_step-sent s m rest h small =
    rw
      (
        h,
        read-send_message m rest (omega arith),
        le→not_ltb 65536 (suc (length m.payload)) (omega arith),
      )
      refl

verify-accepted :
    (now : Clock) (random submitted : ℕ) (w : World)
    → is_locked now w.state ≡ false
    → pin_matches submitted w.state ≡ true
    → verify now random submitted w ≡ (accept_pin w, ok tt)
unfolding verify
verify-accepted now random submitted w unlocked right = rw (unlocked, right) refl

hello-answered :
    (s : Server) (version caps : ℕ) (rest : List ℕ)
    → s.input ≡ send_message (says hello (encode_hello version caps)) ++ rest
    → step_hello_exchange s
      ≡ (send hello_ack (encode_version protocol_version) (record s { input = rest }), ok caps)
unfolding step_hello_exchange answer_hello encode_hello parse_hello_caps
hello-answered s version caps rest h =
    rw (read_step-sent s (says hello (encode_hello version caps)) rest h (omega arith)) refl

pin-answered :
    (now : Clock) (random pin : ℕ) (s : Server) (rest : List ℕ)
    → s.input ≡ send_message (says pin_response (to_le_bytes 4 pin)) ++ rest
    → pin < 2 ^ 32
    → is_locked now s.pairing.state ≡ false
    → pin_matches pin s.pairing.state ≡ true
    → step_pin_pairing now random s ≡ (
      send pin_result
          (1 ∷ [])
          (record (send pin_request [] s) { input = rest; pairing = accept_pin s.pairing }),
      ok tt,
    )
unfolding step_pin_pairing check_pin report_pin send
pin-answered now random pin s rest h small unlocked right =
    rw
      (
        read_step-sent (send pin_request [] s) (says pin_response (to_le_bytes 4 pin)) rest h
            (omega arith),
        from_le_bytes-to_le_bytes 4 pin (omega arith),
        verify-accepted now random pin s.pairing unlocked right,
      )
      refl

start-answered :
    (s : Server) (rest : List ℕ)
    → s.input ≡ send_message (says stream_start []) ++ rest
    → step_stream_start s ≡ (record s { input = rest }, ok tt)
unfolding step_stream_start expect_start
start-answered s rest h = rw (read_step-sent s (says stream_start []) rest h (omega arith)) refl

-- What the server says to a client that it accepts.
abbrev pub replies : (ℕ → ℕ → ℕ) → VideoConfig → ℕ → List Message
replies scaled video caps =
    says hello_ack (encode_version protocol_version)
    ∷ says pin_request []
    ∷ says pin_result (1 ∷ [])
    ∷ says stream_config (encode_stream_config scaled video caps)
    ∷ []

abbrev pub requests : ℕ → ℕ → ℕ → List Message
requests version caps pin =
    says hello (encode_hello version caps)
    ∷ says pin_response (to_le_bytes 4 pin)
    ∷ says stream_start []
    ∷ []

append_three : (a b c rest : List ℕ) → (a ++ (b ++ (c ++ []))) ++ rest ≡ a ++ (b ++ (c ++ rest))
append_three a b c rest =
    rw (append_assoc a (b ++ (c ++ [])) rest, append_assoc b (c ++ []) rest, append_assoc c [] rest)
      refl

append_four :
    (o a b c d : List ℕ) → (((o ++ a) ++ b) ++ c) ++ d ≡ o ++ (a ++ (b ++ (c ++ (d ++ []))))
append_four o a b c d =
    rw
      (
        append_assoc ((o ++ a) ++ b) c d,
        append_assoc (o ++ a) b (c ++ d),
        append_assoc o a (b ++ (c ++ d)),
        append-nil d,
      )
      refl

-- Three steps that succeed are a handshake that does.
handle_handshake-steps :
    (scaled : ℕ → ℕ → ℕ) (video : VideoConfig) (now : Clock) (random caps : ℕ) (s s₁ s₂ s₃ : Server)
    → step_hello_exchange s ≡ (s₁, ok caps)
    → step_pin_pairing now random (record s₁ { client_caps = caps }) ≡ (s₂, ok tt)
    → step_stream_start (step_stream_config (encode_stream_config scaled video caps) s₂)
      ≡ (s₃, ok tt)
    → handle_handshake scaled video now random s ≡ (s₃, ok tt)
unfolding handle_handshake
handle_handshake-steps scaled video now random caps s s₁ s₂ s₃ h₁ h₂ h₃ =
    let start : ℕ → Server → Outcome Unit =
      λ c s'. step_stream_start (step_stream_config (encode_stream_config scaled video c) s') in
    let pair : ℕ → Server → Outcome Unit = λ c s'.
      and_then (step_pin_pairing now random (record s' { client_caps = c }))
        (λ u s''. start c s'') in
    ap (λ o. and_then o pair) h₁ ∙ (ap (λ o. and_then o (λ u s''. start caps s'')) h₂ ∙ h₃)

-- A client that says HELLO with any version, answers with the PIN while pairing is not locked, and
-- starts the stream, gets through: it has been sent HELLO_ACK, PIN_REQUEST, an accepting PIN_RESULT and
-- the STREAM_CONFIG for its capabilities, and nothing else; the bytes after its STREAM_START are
-- left; and the pairing state is the accepted one.
pub handshake_completes :
    (scaled : ℕ → ℕ → ℕ) (video : VideoConfig) (now : Clock) (random version caps pin : ℕ)
    (s : Server) (rest : List ℕ)
    → s.input ≡ send_all (requests version caps pin) ++ rest
    → pin < 2 ^ 32
    → is_locked now s.pairing.state ≡ false
    → pin_matches pin s.pairing.state ≡ true
    → handle_handshake scaled video now random s ≡ (
      record {
        input = rest;
        output = s.output ++ send_all (replies scaled video caps);
        client_caps = caps;
        pairing = accept_pin s.pairing;
      },
      ok tt,
    )
unfolding send step_stream_config send_all
handshake_completes scaled video now random version caps pin s rest h small unlocked right =
    let last = send_message (says stream_start []) ++ rest in
    let middle = send_message (says pin_response (to_le_bytes 4 pin)) ++ last in
    let s₀ = send hello_ack (encode_version protocol_version) (record s { input = middle }) in
    let s₁ : Server = record s₀ { client_caps = caps } in
    let s₂ =
      send pin_result (1 ∷ [])
        (record (send pin_request [] s₁) { input = last; pairing = accept_pin s.pairing }) in
    let s₂' = step_stream_config (encode_stream_config scaled video caps) s₂ in
    handle_handshake-steps scaled video now random caps s s₀ s₂ (record s₂' { input = rest })
      (hello-answered s version caps middle (
        h
        ∙ append_three (send_message (says hello (encode_hello version caps)))
            (send_message (says pin_response (to_le_bytes 4 pin)))
            (send_message (says stream_start [])) rest))
      (pin-answered now random pin s₁ last refl small unlocked right) (start-answered s₂' rest refl)
    ∙ ap
        (λ o. (
          record { input = rest; output = o; client_caps = caps; pairing = accept_pin s.pairing },
          ok tt,
        ))
        (append_four s.output (send_message (says hello_ack (encode_version protocol_version)))
          (send_message (says pin_request [])) (send_message (says pin_result (1 ∷ [])))
          (send_message (says stream_config (encode_stream_config scaled video caps))))
