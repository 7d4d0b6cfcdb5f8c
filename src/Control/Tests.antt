-- ===== src/Control/Tests.antt =====
-- The control channel's theorems at concrete inputs.
use focus_vision_pcvr.Prelude.{
  ◌↔◌, ℕ, ◌/◌, ◌+◌, ◌≡◌, refl, ap, true, false, none, some, List, [], ◌∷◌, ◌++◌, All, arith, ok,
}
use focus_vision_pcvr.Control.Pairing.{
  PairingLimits, Clock, World, Guess, with_limits, verify, is_locked, pin_matches, accept_pin,
  default_limits, rotate_if_expired, expires_in,
}
use focus_vision_pcvr.Control.Pairing.Accepted.{verify-accepts}
use focus_vision_pcvr.Control.Pairing.Lockout.{
  verify_all, Refused, is_ok, locked_refuses_all, guesses_bounded, lockout-restart,
}
use focus_vision_pcvr.Control.Framing.{send_all}
use focus_vision_pcvr.Control.StreamConfig.{VideoConfig, h265}
use focus_vision_pcvr.Control.Listen.{
  accepted, failed, expired, accept_error, connection, Arrival, Round, Security, TcpControlServer,
  authenticated, rotated, listen_and_accept,
}
use focus_vision_pcvr.Control.Listen.Verified.{IsPaired, listen-IsPaired}
use focus_vision_pcvr.Control.Listen.Completes.{listen_completes}
use focus_vision_pcvr.Control.Handshake.{Server, handle_handshake}
use focus_vision_pcvr.Control.Handshake.Safety.{HasPin, handshake-verified}
use focus_vision_pcvr.Control.Handshake.Completes.{requests, replies, handshake_completes}

-- Two attempts, and a lockout of 100 microseconds.
abbrev two_attempts : PairingLimits
two_attempts = record { max_attempts = 2; lockout = 100 }

abbrev at : ℕ → Clock
at t = record { instant = t; unix = 1_000 + t }

abbrev started : World
started = record {
  state = record {
    pin = 123_456;
    attempts = 0;
    limits = two_attempts;
    lockout_until = none;
    paired = false;
    issued_at = 0;
    lifetime = 300_000_000;
  };
  disk = 0;
}

abbrev guess : ℕ → ℕ → Guess
guess t submitted = record { at_time = at t; random = 77; submitted = submitted }

abbrev locked : World
locked = record started { state = record started.state { lockout_until = some 60 } }

locked_refuses_all_example :
    ((verify_all (guess 10 123_456 ∷ []) locked).0 ≡ locked)
    × All Refused (verify_all (guess 10 123_456 ∷ []) locked).1
locked_refuses_all_example =
    locked_refuses_all (guess 10 123_456 ∷ []) locked 60 refl (omega arith, tt)

-- An earlier lockout is over at 20.
abbrev was_locked : World
was_locked = record started { state = record started.state { lockout_until = some 20 } }

guesses_bounded_example :
    All
      (λ r. is_ok r ≡ false)
      (verify_all ((guess 21 5 ∷ []) ++ (guess 22 6 ∷ guess 50 123_456 ∷ [])) was_locked).1
unfolding pin_matches
guesses_bounded_example =
    guesses_bounded (guess 21 5 ∷ []) (guess 22 6) (guess 50 123_456 ∷ []) was_locked
      (omega arith, omega arith) (omega arith, tt) (omega arith) (refl, tt) refl (omega arith)
      (omega arith, tt)

abbrev once_wrong : World
once_wrong = record started {
  state = record started.state { attempts = 1; lockout_until = some 2 };
}

lockout-restart_example :
    (with_limits default_limits
      (record { instant = 5; unix = 1_050 })
      9
      (verify (at 2) 77 6 once_wrong).0.disk).state.lockout_until
    ≡ some 57
unfolding pin_matches default_limits
lockout-restart_example =
    lockout-restart (guess 2 6) once_wrong default_limits (record { instant = 5; unix = 1_050 }) 9
      (omega arith, omega arith) (omega arith) refl (omega arith) (omega arith) (omega arith)

abbrev video : VideoConfig
video = record {
  render_w = 1832;
  render_h = 1920;
  bitrate_mbps = 80;
  framerate = 90;
  codec = h265;
  resolution_scale = 0x3f00_0000;
}

-- Half, whatever the scale.
abbrev half : ℕ → ℕ → ℕ
half n s = n / 2

abbrev connected : Server
connected = record {
  input = send_all (requests 6 3 123_456) ++ (1 ∷ []);
  output = [];
  client_caps = 0;
  pairing = started;
}

handshake_completes_example : handle_handshake half video (at 3) 77 connected ≡ (
  record {
    input = 1 ∷ [];
    output = [] ++ send_all (replies half video 3);
    client_caps = 3;
    pairing = accept_pin started;
  },
  ok tt,
)
unfolding is_locked pin_matches
handshake_completes_example =
    handshake_completes half video (at 3) 77 6 3 123_456 connected (1 ∷ []) refl (omega arith) refl
      refl

handshake-verified_example : HasPin (at 3) 77 connected.input started
unfolding is_locked pin_matches
handshake-verified_example = handshake-verified half video (at 3) 77 connected (
    rw
      (handshake_completes half video (at 3) 77 6 3 123_456 connected (1 ∷ []) refl (omega arith)
        refl refl)
      refl)

verify-accepts_example :
    ((verify (at 3) 77 123_456 started).1 ≡ ok tt)
    ↔ ((is_locked (at 3) started.state ≡ false) × (123_456 ≡ started.state.pin))
verify-accepts_example = verify-accepts (at 3) 77 123_456 started

abbrev idle_server : TcpControlServer
idle_server = record { pairing = started; client_caps = 0; connected = false }

abbrev round : ℕ → Arrival → Round
round t arrival = record {
  at_time = at t;
  random = 5;
  arrival = arrival;
  pin_at = at (t + 1);
  pin_random = 77;
}

abbrev client : Round
client = round 20 (connection accepted (send_all (requests 6 3 123_456) ++ (9 ∷ [])))

abbrev earlier : List Round
earlier = round 1 expired ∷ round 2 accept_error ∷ round 3 (connection failed (1 ∷ [])) ∷ []

abbrev tls_only : Security
tls_only = record { has_tls = true; allow_plaintext = false }

listen_completes_example :
    listen_and_accept half video tls_only true (earlier ++ (client ∷ [])) idle_server ≡ (
      record { pairing = accept_pin started; client_caps = 3; connected = true },
      authenticated (send_all (replies half video 3)) (9 ∷ []),
    )
unfolding is_locked pin_matches rotated rotate_if_expired expires_in
listen_completes_example =
    listen_completes half video false earlier [] client 6 3 123_456 (9 ∷ []) idle_server
      (tt, (tt, (tt, tt))) (omega arith) refl (omega arith) refl refl

listen-IsPaired_example :
    IsPaired half video tls_only
      (earlier ++ (client ∷ []))
      (record { server = idle_server; accept_errors = 0 })
listen-IsPaired_example =
    listen-IsPaired half video tls_only true (earlier ++ (client ∷ [])) idle_server
      (send_all (replies half video 3)) (9 ∷ []) (ap (λ t. t.1) listen_completes_example)
