-- ===== src/Control/Listen/Verified.antt =====
-- Who gets past the accept loop.
use focus_vision_pcvr.Prelude.{
  ℕ, ◌≡◌, refl, sym, subst, ap, ◌∙◌, Bool, true, false, not, ◌&&◌, ◌||◌, List, [], ◌∷◌, ◌++◌, arith,
  if◌then◌else◌,
}
use focus_vision_pcvr.Control.Handshake.Safety.{HasPin}
use focus_vision_pcvr.Control.StreamConfig.{VideoConfig}
use focus_vision_pcvr.Control.Listen.{
  Tls, connection, Round, Security, TcpControlServer, Listening, Verdict, goes_on, gives_up,
  authenticated, rotated, listen_round, listen, listen_and_accept,
}
use focus_vision_pcvr.Control.Listen.Rounds.{
  IsFresh, rotated-IsFresh, went_on, gave_up, let_in, ending, stopped_or-goes_on,
  stopped_or-gives_up, IsSecure, IsLetIn, round-IsLetIn,
}

module _ (scaled : ℕ → ℕ → ℕ) (video : VideoConfig) (security : Security) where
  -- Of the rounds, the one that let the connection in: none before it ended the loop, its connection
  -- was secure, its bytes hold a PIN that was accepted, and that PIN still had time left.
  pub record IsPaired (rounds : List Round) (start : Listening) : Type 0 where
    pub earlier : List Round
    pub round : Round
    pub later : List Round
    pub split : rounds ≡ earlier ++ (round ∷ later)
    pub waited : (listen scaled video security earlier start).1 ≡ goes_on
    pub tls : Tls
    pub input : List ℕ
    pub arrived : round.arrival ≡ connection tls input
    pub secure : IsSecure scaled video security tls
    pub proven :
        HasPin round.pin_at round.pin_random input
          (rotated round (listen scaled video security earlier start).0.server.pairing)
    pub fresh :
        IsFresh round (rotated round (listen scaled video security earlier start).0.server.pairing)

  let_in-IsPaired :
      (r : Round) (rounds : List Round) (l : Listening)
      → IsLetIn scaled video security r (rotated r l.server.pairing)
      → IsPaired (r ∷ rounds) l
  unfolding listen
  let_in-IsPaired r rounds l h = record {
    earlier = [];
    round = r;
    later = rounds;
    split = refl;
    waited = refl;
    tls = h.tls;
    input = h.input;
    arrived = h.arrived;
    secure = h.secure;
    proven = h.proven;
    fresh = rotated-IsFresh r l.server.pairing;
  }

  -- One round more before.
  later-IsPaired :
      (r : Round) (rounds : List Round) (l l' : Listening)
      → ((more : List Round)
          → listen scaled video security (r ∷ more) l ≡ listen scaled video security more l')
      → IsPaired rounds l'
      → IsPaired (r ∷ rounds) l
  later-IsPaired r rounds l l' skips h =
      let same : (listen scaled video security h.earlier l').0.server.pairing
          ≡ (listen scaled video security (r ∷ h.earlier) l).0.server.pairing =
        ap (λ t. t.0.server.pairing) (sym (skips h.earlier)) in
      record {
        earlier = r ∷ h.earlier;
        round = h.round;
        later = h.later;
        split = ap (◌∷◌ r) h.split;
        waited = ap (λ t. t.1) (skips h.earlier) ∙ h.waited;
        tls = h.tls;
        input = h.input;
        arrived = h.arrived;
        secure = h.secure;
        proven =
            subst (λ w. HasPin h.round.pin_at h.round.pin_random h.input (rotated h.round w)) same
              h.proven;
        fresh = subst (λ w. IsFresh h.round (rotated h.round w)) same h.fresh;
      }

  module _ (allowed : (security.has_tls || security.allow_plaintext) ≡ true) where
    listen_from :
        (rounds : List Round) (l : Listening) (output left : List ℕ)
        → (listen scaled video security rounds l).1 ≡ authenticated output left
        → IsPaired rounds l
    unfolding listen
    listen_from [] l output left h = absurd (ground (arith, h))
    listen_from (r ∷ rounds) l output left h =
        let step = listen_round scaled video security r l in
        let rest = listen scaled video security rounds step.0 in
        elim (ending step.1) [
          | went_on e ↦
              later-IsPaired r rounds l step.0
                (λ more. stopped_or-goes_on step (listen scaled video security more step.0) e)
                (listen_from rounds step.0 output left
                  (ap (λ t. t.1) (sym (stopped_or-goes_on step rest e)) ∙ h))
          | gave_up e ↦ absurd (ground (arith, h, stopped_or-gives_up step rest e))
          | let_in output' left' e ↦
              let_in-IsPaired r rounds l
                (round-IsLetIn scaled video security allowed r l output' left' e)
        ]

  guarded :
      (rounds : List Round) (server : TcpControlServer) (tls plaintext unbound : Bool)
      (output left : List ℕ) (end : TcpControlServer × Verdict)
      → (if (not tls && not plaintext) || unbound then (server, gives_up) else end).1
        ≡ authenticated output left
      → ((tls || plaintext) ≡ true) × (end.1 ≡ authenticated output left)
  guarded rounds server true plaintext false output left end h = (refl, h)
  guarded rounds server false true false output left end h = (refl, h)
  guarded rounds server true plaintext true output left end h = absurd (ground (arith, h))
  guarded rounds server false true true output left end h = absurd (ground (arith, h))
  guarded rounds server false false unbound output left end h = absurd (ground (arith, h))

-- Whatever comes to the accept loop and in whatever order, a connection that it hands on came over TLS,
-- or without it where plaintext is allowed and there is no TLS, and the bytes it sent begin with a
-- HELLO and a PIN_RESPONSE whose PIN `verify` accepts in the pairing state that the rounds before and
-- the rotation of an expired PIN had left; as the connection came in, that state's PIN still had time
-- left, unless PINs have no lifetime at all.
pub listen-IsPaired :
    (scaled : ℕ → ℕ → ℕ) (video : VideoConfig) (security : Security) (bound : Bool)
    (rounds : List Round) (server : TcpControlServer) (output left : List ℕ)
    → (listen_and_accept scaled video security bound rounds server).1 ≡ authenticated output left
    → IsPaired scaled video security rounds (record { server = server; accept_errors = 0 })
unfolding listen_and_accept
listen-IsPaired scaled video security bound rounds server output left h =
    let start : Listening = record { server = server; accept_errors = 0 } in
    let end = listen scaled video security rounds start in
    let passed =
      guarded scaled video security rounds server security.has_tls security.allow_plaintext
        (not bound) output left (end.0.server, end.1) h in
    listen_from scaled video security passed.0 rounds start output left passed.1
