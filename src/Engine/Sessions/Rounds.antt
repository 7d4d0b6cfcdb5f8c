-- ===== src/Engine/Sessions/Rounds.antt =====
-- The order of the sessions over whole runs of the loop.
use focus_vision_pcvr.Prelude.{
  ℕ, ◌≡◌, refl, ap, ◌∙◌, Bool, ◌&&◌, Option, none, some, is_some, List, [], ◌∷◌, ◌++◌, if_either,
}
use focus_vision_pcvr.Control.Reconnect.{record_accept_success, next_backoff}
use focus_vision_pcvr.Engine.Sessions.{
  Connection, Listened, authenticated, failed, shut_down, Round, StreamingLoop, new, Accepted,
  connected, retry, stop, take_listened, wait_for, accept, next_connection, stream_on, go_on, round,
  run,
}
use focus_vision_pcvr.Engine.Sessions.Orderly.{
  streamed_of, pending, IsOrderly, IsReady, new-IsOrderly, idle-IsOrderly, session-IsOrderly,
  reconnect-IsOrderly, after-IsOrderly,
}

-- What the wait for a connection gives: one to stream to, or none and a loop in order.
IsWaited : StreamingLoop × Accepted → Type 0
IsWaited (l, connected conn) = IsReady conn l
IsWaited (l, retry) = IsOrderly l
IsWaited (l, stop) = IsOrderly l

listened-IsWaited :
    (listened : Listened) (l : StreamingLoop)
    → l.resumed ≡ none
    → IsOrderly l
    → IsWaited (take_listened listened l)
unfolding take_listened IsWaited
listened-IsWaited (authenticated conn) l e h = record {
  none_left = e;
  next_up = ap (◌∷◌ conn) (h.in_turn ∙ ap (λ r. pending r ++ streamed_of l.steps) e);
  own = (tt, h.own);
}
listened-IsWaited failed l e h = reconnect-IsOrderly _ l h
listened-IsWaited shut_down l e h = h

wait-IsWaited :
    (backoff : Option ℕ) (listened : Listened) (l : StreamingLoop)
    → l.resumed ≡ none
    → IsOrderly l
    → IsWaited (take_listened listened (wait_for backoff l))
wait-IsWaited none listened l e h = listened-IsWaited listened l e h
wait-IsWaited (some seconds) listened l e h = listened-IsWaited listened _ e (record {
  closed = h.closed;
  no_head = h.no_head;
  no_controllers = h.no_controllers;
  in_turn = h.in_turn;
  own = (tt, h.own);
})

accept-IsWaited :
    (e : Round) (l : StreamingLoop) → l.resumed ≡ none → IsOrderly l → IsWaited (accept e l)
unfolding accept IsWaited
accept-IsWaited e l left h =
    if_either IsWaited (is_some (next_backoff l.reconnect_state) && e.backoff_cancelled) _ _
      (λ c. h) (λ c. wait-IsWaited (next_backoff l.reconnect_state) e.listened l left h)

next-IsWaited :
    (r : Option Connection) (e : Round) (l : StreamingLoop)
    → l.resumed ≡ r
    → IsOrderly l
    → IsWaited (next_connection r e l)
unfolding next_connection IsWaited
next-IsWaited none e l left h = accept-IsWaited e l left h
next-IsWaited (some conn) e l left h = record {
  none_left = refl;
  next_up = h.in_turn ∙ ap (λ r. pending r ++ streamed_of l.steps) left;
  own = h.own;
}

module _ (to_canonical : ℕ → ℕ) where
  go_on-IsOrderly :
      (e : Round) (t : StreamingLoop × Accepted) → IsWaited t → IsOrderly (go_on to_canonical e t).0
  unfolding go_on stream_on IsWaited
  go_on-IsOrderly e (l, connected conn) h =
      let accepted : StreamingLoop = record l {
        reconnect_state = record_accept_success l.reconnect_state;
      } in
      let s =
        session-IsOrderly to_canonical e conn accepted
          (record { none_left = h.none_left; next_up = h.next_up; own = h.own }) in
      after-IsOrderly e.held _ _ s.1 s.0
  go_on-IsOrderly e (l, retry) h = h
  go_on-IsOrderly e (l, stop) h = h

  round-IsOrderly :
      (e : Round) (l : StreamingLoop) → IsOrderly l → IsOrderly (round to_canonical e l).0
  unfolding round
  round-IsOrderly e l h =
      let waiting = idle-IsOrderly to_canonical e.idle l h in
      if_either {A = StreamingLoop × Bool} (λ q. IsOrderly q.0) e.cancelled _ _ (λ c. h)
        (λ c. go_on-IsOrderly e _ (next-IsWaited _ e _ refl waiting))

  run_from :
      (rounds : List Round) (l : StreamingLoop)
      → IsOrderly l
      → IsOrderly (run to_canonical rounds l).0
  unfolding run
  run_from [] l h = h
  run_from (e ∷ rounds) l h =
      let next = round-IsOrderly e l h in
      if_either {A = StreamingLoop × Bool} (λ q. IsOrderly q.0) (round to_canonical e l).1 _ _
        (λ c. run_from rounds _ next) (λ c. next)

  -- Whatever the listener gives, however the sessions and the holds end, and whatever datagrams come
  -- from whomever, in rounds from the loop's start: every connection that was authenticated has had one
  -- session, in order, but one that the hold has just resumed; in each session the tracking port was
  -- open to its own peer; and after the last of them the port is closed to everyone, and the headset's
  -- pose and controllers are gone.
  pub run-IsOrderly : (rounds : List Round) → IsOrderly (run to_canonical rounds new).0
  run-IsOrderly rounds = run_from rounds new new-IsOrderly
