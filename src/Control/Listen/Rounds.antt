-- ===== src/Control/Listen/Rounds.antt =====
-- What one round of the accept loop lets in.
use focus_vision_pcvr.Prelude.{
  ℕ, ◌+◌, ◌%◌, ◌^◌, ◌<◌, ◌≡◌, ◌⊎◌, inl, inr, refl, Bool, true, false, ◌||◌, List, [], arith, leb,
  ltb, ltb-cases, if_either, ok, err,
}
use focus_vision_pcvr.Control.Pairing.{
  World, PairingState, expires_in, rotate_pin, rotate_if_expired,
}
use focus_vision_pcvr.Control.StreamConfig.{VideoConfig}
use focus_vision_pcvr.Control.Handshake.{Server, Outcome, handle_handshake}
use focus_vision_pcvr.Control.Handshake.Safety.{HasPin, handshake-verified}
use focus_vision_pcvr.Control.Listen.{
  max_consecutive_accept_errors, Tls, accepted, failed, timed_out, Arrival, expired, accept_error,
  connection, Round, Security, TcpControlServer, Listening, Verdict, goes_on, gives_up,
  authenticated, rotated, concluded, shake_hands, over_tls, take_connection, take_arrival,
  listen_round, stopped_or,
}

-- A PIN that a connection finds has time left, unless its lifetime is nothing.
abbrev pub IsFresh : Round → World → Type 0
IsFresh r w = (0 < expires_in r.at_time w.state) ⊎ (w.state.lifetime ≡ 0)

pub rotated-IsFresh : (r : Round) (w : World) → IsFresh r (rotated r w)
unfolding rotated rotate_if_expired expires_in rotate_pin
rotated-IsFresh r w =
    if_either {A = PairingState × Bool} (λ p. IsFresh r (record w { state = p.0 }))
      (ltb 0 (expires_in r.at_time w.state)) (w.state, false)
      (rotate_pin r.at_time r.random w.state, true) (λ e. inl (ground (arith, e)))
      (λ e. elim (ltb-cases 0 w.state.lifetime) [
        | inl some_time ↦ inl (omega (arith, some_time.1))
        | inr no_time ↦ inr (omega (arith, no_time.1))
      ])

pub data Ending (v : Verdict) : Type 0 where
  went_on : v ≡ goes_on → Ending v
  gave_up : v ≡ gives_up → Ending v
  let_in : (output input : List ℕ) → v ≡ authenticated output input → Ending v

pub ending : (v : Verdict) → Ending v
ending goes_on = went_on refl
ending gives_up = gave_up refl
ending (authenticated output input) = let_in output input refl

pub stopped_or-goes_on :
    (step rest : Listening × Verdict) → step.1 ≡ goes_on → stopped_or step rest ≡ rest
unfolding stopped_or
stopped_or-goes_on (l, goes_on) rest e = refl
stopped_or-goes_on (l, gives_up) rest e = absurd (ground (arith, e))
stopped_or-goes_on (l, authenticated output input) rest e = absurd (ground (arith, e))

pub stopped_or-gives_up :
    (step rest : Listening × Verdict) → step.1 ≡ gives_up → (stopped_or step rest).1 ≡ gives_up
unfolding stopped_or
stopped_or-gives_up (l, goes_on) rest e = absurd (ground (arith, e))
stopped_or-gives_up (l, gives_up) rest e = refl
stopped_or-gives_up (l, authenticated output input) rest e = absurd (ground (arith, e))

concluded-ok :
    (server : TcpControlServer) (o : Outcome Unit) (output input : List ℕ)
    → (concluded server o).1 ≡ authenticated output input
    → o.1 ≡ ok tt
unfolding concluded
concluded-ok server (s, ok u) output input h = refl
concluded-ok server (s, err e) output input h = absurd (ground (arith, h))

module _ (scaled : ℕ → ℕ → ℕ) (video : VideoConfig) (security : Security) where
  abbrev pub IsSecure : Tls → Type 0
  IsSecure tls =
      ((security.has_tls ≡ true) × (tls ≡ accepted))
      ⊎ ((security.has_tls ≡ false) × (security.allow_plaintext ≡ true))

  -- What a round that lets a connection in has seen.
  pub record IsLetIn (r : Round) (w : World) : Type 0 where
    pub tls : Tls
    pub input : List ℕ
    pub arrived : r.arrival ≡ connection tls input
    pub secure : IsSecure tls
    pub proven : HasPin r.pin_at r.pin_random input w

  shake_hands-verified :
      (r : Round) (input : List ℕ) (server : TcpControlServer) (output left : List ℕ)
      → (shake_hands scaled video security r input server).1 ≡ authenticated output left
      → HasPin r.pin_at r.pin_random input server.pairing
  unfolding shake_hands
  shake_hands-verified r input server output left h =
      let s : Server = record {
        input = input;
        output = [];
        client_caps = server.client_caps;
        pairing = server.pairing;
      } in
      handshake-verified scaled video r.pin_at r.pin_random s
        (concluded-ok server (handle_handshake scaled video r.pin_at r.pin_random s) output left h)

  over_tls-accepted :
      (r : Round) (tls : Tls) (input : List ℕ) (server : TcpControlServer) (output left : List ℕ)
      → (over_tls scaled video security r tls input server).1 ≡ authenticated output left
      → (tls ≡ accepted)
        × ((shake_hands scaled video security r input server).1 ≡ authenticated output left)
  unfolding over_tls
  over_tls-accepted r accepted input server output left h = (refl, h)
  over_tls-accepted r failed input server output left h = absurd (ground (arith, h))
  over_tls-accepted r timed_out input server output left h = absurd (ground (arith, h))

  module _ (allowed : (security.has_tls || security.allow_plaintext) ≡ true) where
    take_connection-IsSecure :
        (r : Round) (tls : Tls) (input : List ℕ) (server : TcpControlServer) (output left : List ℕ)
        → (take_connection scaled video security r tls input server).1 ≡ authenticated output left
        → IsSecure tls
          × ((shake_hands scaled video security r input server).1 ≡ authenticated output left)
    unfolding take_connection
    take_connection-IsSecure r tls input server output left =
        if_either {A = TcpControlServer × Verdict}
          (λ t.
            t.1 ≡ authenticated output left
            → IsSecure tls
              × ((shake_hands scaled video security r input server).1 ≡ authenticated output left))
          security.has_tls _ _
          (λ e h.
            let over = over_tls-accepted r tls input server output left h in
            (inl (e, over.0), over.1))
          (λ e h. (inr (e, ground (arith, e, allowed)), h))

    arrival-IsLetIn :
        (r : Round) (a : Arrival) (l : Listening) (output left : List ℕ)
        → r.arrival ≡ a
        → (take_arrival scaled video security r a l).1 ≡ authenticated output left
        → IsLetIn r l.server.pairing
    unfolding take_arrival
    arrival-IsLetIn r expired l output left e h = absurd (ground (arith, h))
    arrival-IsLetIn r accept_error l output left e h =
        if_either (λ v. v ≡ authenticated output left → IsLetIn r l.server.pairing)
          (leb max_consecutive_accept_errors ((l.accept_errors + 1) % 2 ^ 32)) gives_up goes_on
          (λ d h. absurd (ground (arith, h))) (λ d h. absurd (ground (arith, h))) h
    arrival-IsLetIn r (connection tls input) l output left e h =
        let sure = take_connection-IsSecure r tls input l.server output left h in
        let pin = shake_hands-verified r input l.server output left sure.1 in
        record { tls = tls; input = input; arrived = e; secure = sure.0; proven = pin }

    pub round-IsLetIn :
        (r : Round) (l : Listening) (output left : List ℕ)
        → (listen_round scaled video security r l).1 ≡ authenticated output left
        → IsLetIn r (rotated r l.server.pairing)
    unfolding listen_round
    round-IsLetIn r l output left h =
        arrival-IsLetIn r r.arrival
          (record l { server = record l.server { pairing = rotated r l.server.pairing } }) output
          left refl h
