-- ===== src/Engine/Sessions.antt =====
-- `StreamingLoop` of engine.rs: accept a headset, stream to it, hold its place after a lost connection.
-- What happens in one round of the loop is an argument: what the listener gives, how the session ends,
-- which datagrams come on the tracking port. An address is a number, and `to_canonical` of one a
-- parameter, as in Tracking.Receiver.
pub mod Orderly
pub mod Rounds
pub mod Lasting
use focus_vision_pcvr.Prelude.{
  ℕ, Bool, true, false, ◌&&◌, Option, none, some, is_some, List, [], ◌∷◌, ◌==◌, if◌then◌else◌,
}
use focus_vision_pcvr.Control.Reconnect.{
  ReconnectState, record_accept_failure, record_accept_success, record_clean_disconnect,
  record_connection_lost, record_protocol_error, record_hold_accept_failure, next_backoff,
}
use focus_vision_pcvr.Control.Reconnect
use focus_vision_pcvr.Tracking.Receiver.{Latest, receive}
use focus_vision_pcvr.Engine.Control.{
  DisconnectReason, client_requested, connection_lost, protocol_error,
}

-- An authenticated connection: the server that accepted it, known by a number, and the peer.
pub record Connection : Type 0 where
  pub server : ℕ
  pub peer : ℕ
  pub frame_pose : Bool

-- What the listener gives while the loop waits.
pub data Listened : Type 0 where
  authenticated : Connection → Listened
  failed : Listened
  shut_down : Listened

-- How the work of a session ends. Where the control task has cancelled it, its reason comes within a
-- second, or not.
pub data Ending : Type 0 where
  no_udp : Ending
  source_closed : Ending
  engine_cancelled : Ending
  session_cancelled : Option DisconnectReason → Ending

-- How the hold ends.
pub data Held : Type 0 where
  reconnected : Connection → Held
  accept_error : Held
  expired : Held
  hold_cancelled : Held

-- An instant, the source and the bytes.
pub record Datagram : Type 0 where
  pub at_us : ℕ
  pub source : ℕ
  pub bytes : List ℕ

pub record Round : Type 0 where
  pub cancelled : Bool
  pub backoff_cancelled : Bool
  pub idle : List Datagram
  pub listened : Listened
  pub during : List Datagram
  pub ending : Ending
  pub held : Held

-- What the loop has done, for the order of it: each session with the address that the tracking port
-- took datagrams of.
pub data Step : Type 0 where
  waited : ℕ → Step
  obtained : Connection → Step
  streamed : Connection → Option ℕ → Step

-- `resumed` is the loop's own variable; `tracking` is what the tracking receiver keeps, with the
-- datagrams that it refused. The steps are the latest first.
pub record StreamingLoop : Type 0 where
  pub reconnect_state : ReconnectState
  pub resumed : Option Connection
  pub authorized_peer : Option ℕ
  pub tracking : Latest × ℕ
  pub steps : List Step

unfoldable pub new : StreamingLoop
unfolding Reconnect.new
new = record {
  reconnect_state = Reconnect.new;
  resumed = none;
  authorized_peer = none;
  tracking = (record { head = none; controllers = none ∷ none ∷ []; gaze = none }, 0);
  steps = [];
}

-- `HmdInputs::clear`
unfoldable pub clear : Latest → Latest
clear l = record l { head = none; controllers = none ∷ none ∷ [] }

abbrev pub log : Step → StreamingLoop → StreamingLoop
log s l = record l { steps = s ∷ l.steps }

-- `AuthorizedPeerGuard`, and its drop at the end of the session.
unfoldable pub authorize : ℕ → StreamingLoop → StreamingLoop
authorize peer l = record l { authorized_peer = some peer }

unfoldable pub revoke : StreamingLoop → StreamingLoop
unfolding clear
revoke l = record l { authorized_peer = none; tracking = (clear l.tracking.0, l.tracking.1) }

pub data SessionEnd : Type 0 where
  disconnected : DisconnectReason → SessionEnd
  setup_failed : SessionEnd
  shutdown : SessionEnd

abbrev reason_or_lost : Option DisconnectReason → DisconnectReason
reason_or_lost none = connection_lost
reason_or_lost (some reason) = reason

unfoldable pub end_of : Ending → SessionEnd
end_of no_udp = setup_failed
end_of source_closed = shutdown
end_of engine_cancelled = shutdown
end_of (session_cancelled reason) = disconnected (reason_or_lost reason)

abbrev pub wait_for : Option ℕ → StreamingLoop → StreamingLoop
wait_for none l = l
wait_for (some seconds) l = log (waited seconds) l

pub data Accepted : Type 0 where
  connected : Connection → Accepted
  retry : Accepted
  stop : Accepted

unfoldable pub take_listened : Listened → StreamingLoop → StreamingLoop × Accepted
unfolding record_accept_failure
take_listened (authenticated conn) l = (log (obtained conn) l, connected conn)
take_listened failed l =
    (record l { reconnect_state = record_accept_failure l.reconnect_state }, retry)
take_listened shut_down l = (l, stop)

-- After the backoff, where one is due.
unfoldable pub accept : Round → StreamingLoop → StreamingLoop × Accepted
unfolding take_listened next_backoff
accept e l =
    let backoff = next_backoff l.reconnect_state in
    if is_some backoff && e.backoff_cancelled
    then (l, stop)
    else take_listened e.listened (wait_for backoff l)

-- The connection that the hold has resumed, or the next one accepted.
unfoldable pub next_connection :
    Option Connection → Round → StreamingLoop → StreamingLoop × Accepted
unfolding accept
next_connection (some conn) e l = (record l { resumed = none }, connected conn)
next_connection none e l = accept e l

unfoldable pub hold : Held → StreamingLoop → StreamingLoop × Bool
unfolding record_hold_accept_failure
hold (reconnected conn) l = (record (log (obtained conn) l) { resumed = some conn }, true)
hold accept_error l =
    (record l { reconnect_state = record_hold_accept_failure l.reconnect_state }, true)
hold expired l = (l, true)
hold hold_cancelled l = (l, false)

-- What follows a session, and whether the loop goes on.
unfoldable pub after_session : Held → SessionEnd → StreamingLoop → StreamingLoop × Bool
unfolding hold record_accept_failure record_connection_lost record_clean_disconnect
    record_protocol_error
after_session held (disconnected connection_lost) l =
    hold held (record l { reconnect_state = record_connection_lost l.reconnect_state })
after_session held (disconnected client_requested) l =
    (record l { reconnect_state = record_clean_disconnect l.reconnect_state }, true)
after_session held (disconnected protocol_error) l =
    (record l { reconnect_state = record_protocol_error l.reconnect_state }, true)
after_session held setup_failed l =
    (record l { reconnect_state = record_accept_failure l.reconnect_state }, true)
after_session held shutdown l = (l, false)

module _ (to_canonical : ℕ → ℕ) where
  -- The tracking receiver, beside the loop.
  unfoldable pub receive_datagrams : List Datagram → StreamingLoop → StreamingLoop
  unfolding receive
  receive_datagrams [] l = l
  receive_datagrams (d ∷ datagrams) l = receive_datagrams datagrams (record l {
    tracking =
        receive (λ a b. a == b) to_canonical l.authorized_peer d.at_us d.source d.bytes l.tracking;
  })

  unfoldable pub run_session : Round → Connection → StreamingLoop → StreamingLoop × SessionEnd
  unfolding authorize revoke receive_datagrams end_of
  run_session e conn l =
      let streaming = authorize conn.peer l in
      let during =
        receive_datagrams e.during (log (streamed conn streaming.authorized_peer) streaming) in
      (revoke during, end_of e.ending)

  unfoldable pub stream_on : Round → Connection → StreamingLoop → StreamingLoop × Bool
  unfolding run_session after_session record_accept_success
  stream_on e conn l =
      let accepted : StreamingLoop = record l {
        reconnect_state = record_accept_success l.reconnect_state;
      } in
      let done = run_session e conn accepted in after_session e.held done.1 done.0

  unfoldable pub go_on : Round → StreamingLoop × Accepted → StreamingLoop × Bool
  unfolding stream_on
  go_on e (l, connected conn) = stream_on e conn l
  go_on e (l, retry) = (l, true)
  go_on e (l, stop) = (l, false)

  -- One round of the loop.
  unfoldable pub round : Round → StreamingLoop → StreamingLoop × Bool
  unfolding go_on next_connection receive_datagrams
  round e l =
      let waiting = receive_datagrams e.idle l in
      if e.cancelled then (l, false) else go_on e (next_connection waiting.resumed e waiting)

  -- Rounds until the loop stops.
  unfoldable pub run : List Round → StreamingLoop → StreamingLoop × Bool
  unfolding round
  run [] l = (l, true)
  run (e ∷ rounds) l =
      let next = round e l in let rest = run rounds next.0 in if next.1 then rest else next
