-- ===== src/Engine/Sessions/Orderly.antt =====
-- The order of the sessions, and who may feed the tracking port.
use focus_vision_pcvr.Prelude.{
  ℕ, ◌≡◌, refl, sym, ap, subst, ◌∙◌, Option, none, some, List, [], ◌∷◌, ◌++◌, All, ◌==◌, arith,
}
use focus_vision_pcvr.Control.Reconnect
use focus_vision_pcvr.Control.Reconnect.{record_accept_failure, record_accept_success, next_backoff}
use focus_vision_pcvr.Tracking.Receiver.{Latest, receive, is_paired_hmd}
use focus_vision_pcvr.Engine.Control.{client_requested, connection_lost, protocol_error}
use focus_vision_pcvr.Engine.Sessions.{
  Connection, Held, reconnected, accept_error, expired, hold_cancelled, Datagram, Round, Step,
  waited, obtained, streamed, StreamingLoop, new, clear, log, authorize, revoke, SessionEnd,
  disconnected, setup_failed, shutdown, hold, after_session, receive_datagrams, run_session,
}

-- The connections that were authenticated, and those that were streamed to, the latest first.
abbrev pub obtained_of : List Step → List Connection
obtained_of [] = []
obtained_of (waited seconds ∷ steps) = obtained_of steps
obtained_of (obtained conn ∷ steps) = conn ∷ obtained_of steps
obtained_of (streamed conn peer ∷ steps) = obtained_of steps

abbrev pub streamed_of : List Step → List Connection
streamed_of [] = []
streamed_of (waited seconds ∷ steps) = streamed_of steps
streamed_of (obtained conn ∷ steps) = streamed_of steps
streamed_of (streamed conn peer ∷ steps) = conn ∷ streamed_of steps

-- A session is fed by its own peer.
abbrev pub IsOwn : Step → Type 0
IsOwn (waited seconds) = Unit
IsOwn (obtained conn) = Unit
IsOwn (streamed conn peer) = peer ≡ some conn.peer

abbrev pub pending : Option Connection → List Connection
pending none = []
pending (some conn) = conn ∷ []

-- Every connection that was authenticated has had one session, in order, but one that the hold has
-- just resumed; each with the tracking port open to its own peer alone; and between sessions the port
-- is closed and the headset's inputs are gone.
pub record IsOrderly (l : StreamingLoop) : Type 0 where
  pub closed : l.authorized_peer ≡ none
  pub no_head : l.tracking.0.head ≡ none
  pub no_controllers : l.tracking.0.controllers ≡ none ∷ none ∷ []
  pub in_turn : obtained_of l.steps ≡ pending l.resumed ++ streamed_of l.steps
  pub own : All IsOwn l.steps

-- A connection that is about to be streamed to.
pub record IsReady (conn : Connection) (l : StreamingLoop) : Type 0 where
  pub none_left : l.resumed ≡ none
  pub next_up : obtained_of l.steps ≡ conn ∷ streamed_of l.steps
  pub own : All IsOwn l.steps

pub new-IsOrderly : IsOrderly new
unfolding new
new-IsOrderly = record {
  closed = refl;
  no_head = refl;
  no_controllers = refl;
  in_turn = refl;
  own = tt;
}

module _ (to_canonical : ℕ → ℕ) where
  unpaired :
      (peer : Option ℕ) (now src : ℕ) (bytes : List ℕ) (t : Latest × ℕ)
      → peer ≡ none
      → (receive (λ a b. a == b) to_canonical peer now src bytes t).0 ≡ t.0
  unfolding receive is_paired_hmd
  unpaired none now src bytes (l, n) e = refl
  unpaired (some ip) now src bytes t e = absurd (ground (arith, e))

  pub idle-IsOrderly :
      (datagrams : List Datagram) (l : StreamingLoop)
      → IsOrderly l
      → IsOrderly (receive_datagrams to_canonical datagrams l)
  unfolding receive_datagrams
  idle-IsOrderly [] l h = h
  idle-IsOrderly (d ∷ datagrams) l h =
      let same = unpaired l.authorized_peer d.at_us d.source d.bytes l.tracking h.closed in
      idle-IsOrderly datagrams _ (record {
        closed = h.closed;
        no_head = ap (λ t. t.head) same ∙ h.no_head;
        no_controllers = ap (λ t. t.controllers) same ∙ h.no_controllers;
        in_turn = h.in_turn;
        own = h.own;
      })

  -- Datagrams change nothing but what the tracking receiver keeps.
  record AreBeside (l m : StreamingLoop) : Type 0 where
    resumed_same : m.resumed ≡ l.resumed
    steps_same : m.steps ≡ l.steps

  during-AreBeside :
      (datagrams : List Datagram) (l : StreamingLoop)
      → AreBeside l (receive_datagrams to_canonical datagrams l)
  unfolding receive_datagrams
  during-AreBeside [] l = record { resumed_same = refl; steps_same = refl }
  during-AreBeside (d ∷ datagrams) l =
      let rest = during-AreBeside datagrams _ in
      record { resumed_same = rest.resumed_same; steps_same = rest.steps_same }

  pub session-IsOrderly :
      (e : Round) (conn : Connection) (l : StreamingLoop)
      → IsReady conn l
      → IsOrderly (run_session to_canonical e conn l).0
        × ((run_session to_canonical e conn l).0.resumed ≡ none)
  unfolding run_session revoke authorize clear
  session-IsOrderly e conn l h =
      let begun : StreamingLoop =
        log (streamed conn (some conn.peer)) (record l { authorized_peer = some conn.peer }) in
      let beside = during-AreBeside e.during begun in
      let left = beside.resumed_same ∙ h.none_left in
      (
        record {
          closed = refl;
          no_head = refl;
          no_controllers = refl;
          in_turn =
              ap obtained_of beside.steps_same
              ∙ h.next_up
              ∙ sym (
                  ap
                    (λ r.
                      pending r
                      ++ streamed_of (receive_datagrams to_canonical e.during begun).steps)
                    left
                  ∙ ap streamed_of beside.steps_same);
          own = subst (All IsOwn) (sym beside.steps_same) (refl, h.own);
        },
        left,
      )

-- A step of the reconnect counters changes nothing else.
pub reconnect-IsOrderly :
    (r : Reconnect.ReconnectState) (l : StreamingLoop)
    → IsOrderly l
    → IsOrderly (record l { reconnect_state = r })
reconnect-IsOrderly r l h = record {
  closed = h.closed;
  no_head = h.no_head;
  no_controllers = h.no_controllers;
  in_turn = h.in_turn;
  own = h.own;
}

hold-IsOrderly :
    (held : Held) (l : StreamingLoop) → l.resumed ≡ none → IsOrderly l → IsOrderly (hold held l).0
unfolding hold
hold-IsOrderly (reconnected conn) l e h = record {
  closed = h.closed;
  no_head = h.no_head;
  no_controllers = h.no_controllers;
  in_turn = ap (◌∷◌ conn) (h.in_turn ∙ ap (λ r. pending r ++ streamed_of l.steps) e);
  own = (tt, h.own);
}
hold-IsOrderly accept_error l e h = reconnect-IsOrderly _ l h
hold-IsOrderly expired l e h = h
hold-IsOrderly hold_cancelled l e h = h

pub after-IsOrderly :
    (held : Held) (end_result : SessionEnd) (l : StreamingLoop)
    → l.resumed ≡ none
    → IsOrderly l
    → IsOrderly (after_session held end_result l).0
unfolding after_session
after-IsOrderly held (disconnected connection_lost) l e h =
    hold-IsOrderly held _ e (reconnect-IsOrderly _ l h)
after-IsOrderly held (disconnected client_requested) l e h = reconnect-IsOrderly _ l h
after-IsOrderly held (disconnected protocol_error) l e h = reconnect-IsOrderly _ l h
after-IsOrderly held setup_failed l e h = reconnect-IsOrderly _ l h
after-IsOrderly held shutdown l e h = h
