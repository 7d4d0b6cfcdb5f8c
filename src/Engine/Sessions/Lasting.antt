-- ===== src/Engine/Sessions/Lasting.antt =====
-- What stops the loop: the engine alone.
use focus_vision_pcvr.Prelude.{
  ℕ, ◌≡◌, refl, Bool, true, false, ◌&&◌, Option, none, some, is_some, List, [], ◌∷◌, All, arith,
  if_either,
}
use focus_vision_pcvr.Control.Reconnect.{next_backoff}
use focus_vision_pcvr.Engine.Control.{client_requested, connection_lost, protocol_error}
use focus_vision_pcvr.Engine.Sessions.{
  Connection, Listened, authenticated, failed, shut_down, Ending, no_udp, source_closed,
  engine_cancelled, session_cancelled, Held, reconnected, accept_error, expired, hold_cancelled,
  Round, StreamingLoop, end_of, Accepted, connected, retry, stop, take_listened, accept,
  next_connection, hold, after_session, receive_datagrams, run_session, stream_on, go_on, round,
  run,
}

abbrev pub is_shut_down : Listened → Bool
is_shut_down (authenticated conn) = false
is_shut_down failed = false
is_shut_down shut_down = true

abbrev pub ends_engine : Ending → Bool
ends_engine no_udp = false
ends_engine source_closed = true
ends_engine engine_cancelled = true
ends_engine (session_cancelled reason) = false

abbrev pub is_hold_cancelled : Held → Bool
is_hold_cancelled (reconnected conn) = false
is_hold_cancelled accept_error = false
is_hold_cancelled expired = false
is_hold_cancelled hold_cancelled = true

-- The engine is not shut down and its source of frames is not closed in this round.
pub record IsRunning (e : Round) : Type 0 where
  pub not_cancelled : e.cancelled ≡ false
  pub backoff_ends : e.backoff_cancelled ≡ false
  pub listening : is_shut_down e.listened ≡ false
  pub streaming : ends_engine e.ending ≡ false
  pub holding : is_hold_cancelled e.held ≡ false

hold_lasts :
    (held : Held) (l : StreamingLoop) → is_hold_cancelled held ≡ false → (hold held l).1 ≡ true
unfolding hold
hold_lasts (reconnected conn) l e = refl
hold_lasts accept_error l e = refl
hold_lasts expired l e = refl
hold_lasts hold_cancelled l e = absurd (ground (arith, e))

session_lasts :
    (held : Held) (ending : Ending) (l : StreamingLoop)
    → is_hold_cancelled held ≡ false
    → ends_engine ending ≡ false
    → (after_session held (end_of ending) l).1 ≡ true
unfolding after_session end_of
session_lasts held no_udp l h e = refl
session_lasts held source_closed l h e = absurd (ground (arith, e))
session_lasts held engine_cancelled l h e = absurd (ground (arith, e))
session_lasts held (session_cancelled none) l h e = hold_lasts held _ h
session_lasts held (session_cancelled (some client_requested)) l h e = refl
session_lasts held (session_cancelled (some connection_lost)) l h e = hold_lasts held _ h
session_lasts held (session_cancelled (some protocol_error)) l h e = refl

-- The wait for a connection does not stop the loop.
IsLasting : StreamingLoop × Accepted → Type 0
IsLasting (l, connected conn) = Unit
IsLasting (l, retry) = Unit
IsLasting (l, stop) = true ≡ false

listened-IsLasting :
    (listened : Listened) (l : StreamingLoop)
    → is_shut_down listened ≡ false
    → IsLasting (take_listened listened l)
unfolding take_listened IsLasting
listened-IsLasting (authenticated conn) l e = tt
listened-IsLasting failed l e = tt
listened-IsLasting shut_down l e = absurd (ground (arith, e))

next-IsLasting :
    (r : Option Connection) (e : Round) (l : StreamingLoop)
    → IsRunning e
    → IsLasting (next_connection r e l)
unfolding next_connection accept IsLasting
next-IsLasting (some conn) e l h = tt
next-IsLasting none e l h =
    if_either IsLasting (is_some (next_backoff l.reconnect_state) && e.backoff_cancelled) _ _
      (λ c. absurd (ground (arith, c, h.backoff_ends)))
      (λ c. listened-IsLasting e.listened _ h.listening)

module _ (to_canonical : ℕ → ℕ) where
  go_on_lasts :
      (e : Round) (t : StreamingLoop × Accepted)
      → IsRunning e
      → IsLasting t
      → (go_on to_canonical e t).1 ≡ true
  unfolding go_on stream_on run_session IsLasting
  go_on_lasts e (l, connected conn) h k = session_lasts e.held e.ending _ h.holding h.streaming
  go_on_lasts e (l, retry) h k = refl
  go_on_lasts e (l, stop) h k = absurd (ground (arith, k))

  round_lasts : (e : Round) (l : StreamingLoop) → IsRunning e → (round to_canonical e l).1 ≡ true
  unfolding round
  round_lasts e l h =
      let waiting = receive_datagrams to_canonical e.idle l in
      if_either {A = StreamingLoop × Bool} (λ q. q.1 ≡ true) e.cancelled _ _
        (λ c. absurd (ground (arith, c, h.not_cancelled)))
        (λ c. go_on_lasts e _ h (next-IsLasting waiting.resumed e waiting h))

  -- From any state of the loop, and whatever connections fail, get lost, break the protocol or leave
  -- in rounds in which the engine is not shut down and its source of frames stays open: the loop goes
  -- on.
  pub run_lasts :
      (rounds : List Round) (l : StreamingLoop)
      → All IsRunning rounds
      → (run to_canonical rounds l).1 ≡ true
  unfolding run
  run_lasts [] l h = refl
  run_lasts (e ∷ rounds) l h =
      if_either {A = StreamingLoop × Bool} (λ q. q.1 ≡ true) (round to_canonical e l).1 _ _
        (λ c. run_lasts rounds _ h.1) (λ c. round_lasts e l h.0)
