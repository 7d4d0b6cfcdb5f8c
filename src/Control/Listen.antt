-- ===== src/Control/Listen.antt =====
-- The accept loop of control/tcp_server.rs. A round is what ends one wait: the PIN's time has run out,
-- `accept` fails, or a connection comes in, of which the TLS layer's verdict and the bytes that arrive
-- are given. What the server writes to a connection that it drops is not kept.
pub mod Rounds
pub mod Verified
pub mod Completes
use focus_vision_pcvr.Prelude.{
  ℕ, ◌+◌, ◌%◌, ◌^◌, Bool, true, false, not, ◌&&◌, ◌||◌, List, [], ◌∷◌, leb, if◌then◌else◌, ok, err,
}
use focus_vision_pcvr.Control.Pairing.{Clock, World, rotate_if_expired}
use focus_vision_pcvr.Control.StreamConfig.{VideoConfig}
use focus_vision_pcvr.Control.Handshake.{Outcome, handle_handshake}

abbrev pub max_consecutive_accept_errors : ℕ
max_consecutive_accept_errors = 100

pub data Tls : Type 0 where
  accepted : Tls
  failed : Tls
  timed_out : Tls

pub data Arrival : Type 0 where
  expired : Arrival
  accept_error : Arrival
  connection : Tls → List ℕ → Arrival

-- When the wait ends and the number behind a new PIN; the same for the PIN check of a handshake.
pub record Round : Type 0 where
  pub at_time : Clock
  pub random : ℕ
  pub arrival : Arrival
  pub pin_at : Clock
  pub pin_random : ℕ

-- What the accept loop never changes of a server.
pub record Security : Type 0 where
  pub has_tls : Bool
  pub allow_plaintext : Bool

pub record TcpControlServer : Type 0 where
  pub pairing : World
  pub client_caps : ℕ
  pub connected : Bool

pub record Listening : Type 0 where
  pub server : TcpControlServer
  pub accept_errors : ℕ

-- How a round ends: the loop goes on, or returns an error, or the connection with what was written to
-- it and what is left to read.
pub data Verdict : Type 0 where
  goes_on : Verdict
  gives_up : Verdict
  authenticated : List ℕ → List ℕ → Verdict

unfoldable pub rotated : Round → World → World
unfolding rotate_if_expired
rotated r w = record w { state = (rotate_if_expired r.at_time r.random w.state).0 }

unfoldable pub concluded : TcpControlServer → Outcome Unit → TcpControlServer × Verdict
concluded server (s, ok u) = (
  record { pairing = s.pairing; client_caps = s.client_caps; connected = true },
  authenticated s.output s.input,
)
concluded server (s, err e) =
    (record server { pairing = s.pairing; client_caps = s.client_caps }, goes_on)

unfoldable pub stopped_or : Listening × Verdict → Listening × Verdict → Listening × Verdict
stopped_or (l, goes_on) rest = rest
stopped_or (l, gives_up) rest = (l, gives_up)
stopped_or (l, authenticated output input) rest = (l, authenticated output input)

module _ (scaled : ℕ → ℕ → ℕ) (video : VideoConfig) (security : Security) where
  unfoldable pub shake_hands : Round → List ℕ → TcpControlServer → TcpControlServer × Verdict
  unfolding concluded
  shake_hands r input server = concluded server (
      handle_handshake scaled video r.pin_at r.pin_random (record {
        input = input;
        output = [];
        client_caps = server.client_caps;
        pairing = server.pairing;
      }))

  unfoldable pub over_tls : Round → Tls → List ℕ → TcpControlServer → TcpControlServer × Verdict
  unfolding shake_hands
  over_tls r accepted input server = shake_hands r input server
  over_tls r failed input server = (server, goes_on)
  over_tls r timed_out input server = (server, goes_on)

  unfoldable pub take_connection :
      Round → Tls → List ℕ → TcpControlServer → TcpControlServer × Verdict
  unfolding over_tls
  take_connection r tls input server =
      if security.has_tls then over_tls r tls input server else shake_hands r input server

  unfoldable pub take_arrival : Round → Arrival → Listening → Listening × Verdict
  unfolding take_connection
  take_arrival r expired l = (l, goes_on)
  take_arrival r accept_error l =
      let errors = (l.accept_errors + 1) % 2 ^ 32 in
      (
        record l { accept_errors = errors },
        if leb max_consecutive_accept_errors errors then gives_up else goes_on,
      )
  take_arrival r (connection tls input) l =
      let taken = take_connection r tls input l.server in
      (record { server = taken.0; accept_errors = 0 }, taken.1)

  unfoldable pub listen_round : Round → Listening → Listening × Verdict
  unfolding take_arrival rotated
  listen_round r l =
      take_arrival r r.arrival
        (record l { server = record l.server { pairing = rotated r l.server.pairing } })

  unfoldable pub listen : List Round → Listening → Listening × Verdict
  unfolding listen_round stopped_or
  listen [] l = (l, goes_on)
  listen (r ∷ rounds) l =
      let step = listen_round r l in let rest = listen rounds step.0 in stopped_or step rest

  -- `bound`: whether the port could be bound.
  unfoldable pub listen_and_accept :
      Bool → List Round → TcpControlServer → TcpControlServer × Verdict
  unfolding listen
  listen_and_accept bound rounds server =
      if (not security.has_tls && not security.allow_plaintext) || not bound
      then (server, gives_up)
      else (let end = listen rounds (record { server = server; accept_errors = 0 }) in
          (end.0.server, end.1))
