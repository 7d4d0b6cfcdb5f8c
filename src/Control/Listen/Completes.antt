-- ===== src/Control/Listen/Completes.antt =====
-- A client with the PIN gets in, whatever else came before it.
use focus_vision_pcvr.Prelude.{
  ℕ, ◌+◌, ◌%◌, ◌^◌, ◌<◌, ◌≤◌, ◌≡◌, refl, ap, ◌∙◌, leb, Bool, true, false, List, [], ◌∷◌, ◌++◌, All,
  arith,
}
use focus_vision_pcvr.Control.Pairing.{World, is_locked, pin_matches, accept_pin}
use focus_vision_pcvr.Control.Framing.{send_all}
use focus_vision_pcvr.Control.StreamConfig.{VideoConfig}
use focus_vision_pcvr.Control.Handshake.{Server}
use focus_vision_pcvr.Control.Handshake.Completes.{requests, replies, handshake_completes}
use focus_vision_pcvr.Control.Listen.{
  max_consecutive_accept_errors, accepted, failed, timed_out, Arrival, expired, accept_error,
  connection, Round, Security, TcpControlServer, Listening, goes_on, authenticated, rotated,
  concluded, shake_hands, over_tls, take_connection, take_arrival, listen_round, stopped_or, listen,
  listen_and_accept,
}
use focus_vision_pcvr.Control.Listen.Rounds.{stopped_or-goes_on}

-- No handshake begins: the PIN's time, an error, or a connection that fails in the TLS layer.
abbrev pub IsQuiet : Arrival → Type 0
IsQuiet expired = Unit
IsQuiet accept_error = Unit
IsQuiet (connection accepted input) = ⊥
IsQuiet (connection failed input) = Unit
IsQuiet (connection timed_out input) = Unit

abbrev error_of : Arrival → ℕ
error_of expired = 0
error_of accept_error = 1
error_of (connection tls input) = 0

abbrev pub errors_in : List Round → ℕ
errors_in [] = 0
errors_in (r ∷ rounds) = error_of r.arrival + errors_in rounds

-- The PIN is replaced as each round comes whose time has run out.
abbrev pub rotated_all : List Round → World → World
rotated_all [] w = w
rotated_all (r ∷ rounds) w = rotated_all rounds (rotated r w)

lt→not_leb : (a b : ℕ) → b < a → leb a b ≡ false
lt→not_leb a b h = ground (arith, h)

module _ (scaled : ℕ → ℕ → ℕ) (video : VideoConfig) (security : Security) where
  module _ (tls : security.has_tls ≡ true) where
    -- A quiet round leaves the server as it is, and adds what errors it has.
    quiet_arrival :
        (r : Round) (a : Arrival) (l : Listening)
        → IsQuiet a
        → l.accept_errors + error_of a < 100
        → (errors : ℕ) × ((errors ≤ l.accept_errors + error_of a)
            × (take_arrival scaled video security r a l
                ≡ (record { server = l.server; accept_errors = errors }, goes_on)))
    unfolding take_arrival take_connection over_tls
    quiet_arrival r expired l quiet few = (l.accept_errors, (omega arith, refl))
    quiet_arrival r accept_error l quiet few =
        let whole : (l.accept_errors + 1) % 2 ^ 32 ≡ l.accept_errors + 1 = omega (arith, few) in
        (
          l.accept_errors + 1,
          (
            omega arith,
            rw
                (
                  whole,
                  lt→not_leb max_consecutive_accept_errors (l.accept_errors + 1)
                      (omega (arith, few)),
                )
                refl,
          ),
        )
    quiet_arrival r (connection accepted input) l quiet few = absurd quiet
    quiet_arrival r (connection failed input) l quiet few = (0, (omega arith, rw tls refl))
    quiet_arrival r (connection timed_out input) l quiet few = (0, (omega arith, rw tls refl))

    quiet_rounds :
        (rounds more : List Round) (l : Listening)
        → All (λ r. IsQuiet r.arrival) rounds
        → l.accept_errors + errors_in rounds < 100
        → (errors : ℕ) × (listen scaled video security (rounds ++ more) l
            ≡ listen scaled video security more (record {
              server = record l.server { pairing = rotated_all rounds l.server.pairing };
              accept_errors = errors;
            }))
    unfolding listen listen_round
    quiet_rounds [] more l quiet few = (l.accept_errors, refl)
    quiet_rounds (r ∷ rounds) more l quiet few =
        let l₁ : Listening = record l {
          server = record l.server { pairing = rotated r l.server.pairing };
        } in
        let step = quiet_arrival r r.arrival l₁ quiet.0 (omega (arith, few)) in
        let l₂ : Listening = record { server = l₁.server; accept_errors = step.0 } in
        let rest = quiet_rounds rounds more l₂ quiet.1 (omega (arith, few, step.1.0)) in
        (
          rest.0,
          ap (λ t. stopped_or t (listen scaled video security (rounds ++ more) t.0)) step.1.1
              ∙ (stopped_or-goes_on (l₂, goes_on) (listen scaled video security (rounds ++ more) l₂)
                    refl
                  ∙ rest.1),
        )

    -- The connection that does not fail.
    client_round :
        (r : Round) (version caps pin : ℕ) (rest : List ℕ) (l : Listening)
        → r.arrival ≡ connection accepted (send_all (requests version caps pin) ++ rest)
        → pin < 2 ^ 32
        → is_locked r.pin_at (rotated r l.server.pairing).state ≡ false
        → pin_matches pin (rotated r l.server.pairing).state ≡ true
        → listen_round scaled video security r l ≡ (
          record {
            server = record {
              pairing = accept_pin (rotated r l.server.pairing);
              client_caps = caps;
              connected = true;
            };
            accept_errors = 0;
          },
          authenticated ([] ++ send_all (replies scaled video caps)) rest,
        )
    unfolding listen_round take_arrival take_connection over_tls shake_hands concluded
    client_round r version caps pin rest l arrived small unlocked right =
        let s : Server = record {
          input = send_all (requests version caps pin) ++ rest;
          output = [];
          client_caps = l.server.client_caps;
          pairing = rotated r l.server.pairing;
        } in
        rw
          (
            arrived,
            tls,
            handshake_completes scaled video r.pin_at r.pin_random version caps pin s rest refl
                small unlocked right,
          )
          refl

-- With TLS and a port that can be bound, fewer than a hundred errors of `accept`, and PINs that run out
-- and connections that fail in the TLS layer however many, leave the accept loop listening: a client
-- that then connects over TLS, says HELLO with any version, answers with the PIN of that moment while
-- pairing is not locked, and starts the stream, is handed on, accepted and with its capabilities.
pub listen_completes :
    (scaled : ℕ → ℕ → ℕ) (video : VideoConfig) (plaintext : Bool) (earlier later : List Round)
    (r : Round) (version caps pin : ℕ) (rest : List ℕ) (server : TcpControlServer)
    → All (λ q. IsQuiet q.arrival) earlier
    → errors_in earlier < 100
    → r.arrival ≡ connection accepted (send_all (requests version caps pin) ++ rest)
    → pin < 2 ^ 32
    → is_locked r.pin_at (rotated r (rotated_all earlier server.pairing)).state ≡ false
    → pin_matches pin (rotated r (rotated_all earlier server.pairing)).state ≡ true
    → listen_and_accept scaled video
        (record { has_tls = true; allow_plaintext = plaintext })
        true
        (earlier ++ (r ∷ later))
        server
      ≡ (
        record {
          pairing = accept_pin (rotated r (rotated_all earlier server.pairing));
          client_caps = caps;
          connected = true;
        },
        authenticated (send_all (replies scaled video caps)) rest,
      )
unfolding listen_and_accept listen
listen_completes scaled video plaintext earlier later r version caps pin rest server quiet few
      arrived small unlocked right =
    let security : Security = record { has_tls = true; allow_plaintext = plaintext } in
    let start : Listening = record { server = server; accept_errors = 0 } in
    let waited =
      quiet_rounds scaled video security refl earlier (r ∷ later) start quiet
        (omega (arith, few)) in
    let l : Listening = record {
      server = record server { pairing = rotated_all earlier server.pairing };
      accept_errors = waited.0;
    } in
    let got =
      client_round scaled video security refl r version caps pin rest l arrived small unlocked
        right in
    ap (λ t. (t.0.server, t.1))
      (waited.1 ∙ ap (λ t. stopped_or t (listen scaled video security later t.0)) got)
