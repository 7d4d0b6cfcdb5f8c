-- ===== src/Engine/Serve/Rates/Runs.antt =====
-- The limits in rate on any run of the control connection.
use focus_vision_pcvr.Prelude.{
  ℕ, zero, suc, refl, Bool, true, false, none, some, List, [], ◌∷◌, ◌++◌, length, get_or, drop,
  ◌==◌, ok, err, Bool-cases, inl, inr,
}
use focus_vision_pcvr.Engine.Inbox.{Taken, take_control_message}
use focus_vision_pcvr.Engine.Control.{Channel, open_at, send}
use focus_vision_pcvr.Engine.Serve.{
  handle_message, msg_disconnect, Served, going, ended, and_then, serve_taken, serve_rounds, serve,
  on_read, Wake, read, read_failed, silence, haptic, sleeping, on_wake, run,
}
use focus_vision_pcvr.Engine.Serve.Rates.{IsPaced, open_at-IsPaced, call-IsPaced, handle-IsPaced}

abbrev pub channel_of : Served → Channel
channel_of (going inbox c) = c
channel_of (ended reason c) = c

serve_taken-IsPaced :
    (now : ℕ) (t : Taken) (c : Channel) (next : List ℕ → Channel → Served)
    → IsPaced c
    → ((rest : List ℕ) (d : Channel) → IsPaced d → IsPaced (channel_of (next rest d)))
    → IsPaced (channel_of (serve_taken now t c next))
unfolding serve_taken
serve_taken-IsPaced now (ok none, rest) c next h on = h
serve_taken-IsPaced now (err len, rest) c next h on = h
serve_taken-IsPaced now (ok (some msg), rest) c next h on =
    elim (Bool-cases (get_or msg 0 0 == msg_disconnect)) [
      | inl e ↦ rw e h
      | inr e ↦ rw e (
          on rest (handle_message now (get_or msg 0 0) (drop 1 msg) c)
            (handle-IsPaced now (get_or msg 0 0) (drop 1 msg) c h))
    ]

rounds-IsPaced :
    (fuel now : ℕ) (inbox : List ℕ) (c : Channel)
    → IsPaced c
    → IsPaced (channel_of (serve_rounds fuel now inbox c))
unfolding serve_rounds
rounds-IsPaced zero now inbox c h = h
rounds-IsPaced (suc fuel) now inbox c h =
    serve_taken-IsPaced now (take_control_message inbox) c (serve_rounds fuel now) h
      (rounds-IsPaced fuel now)

wake-IsPaced :
    (now : ℕ) (w : Wake) (inbox : List ℕ) (c : Channel)
    → IsPaced c
    → IsPaced (channel_of (on_wake now w inbox c))
unfolding on_wake on_read serve send
wake-IsPaced now (read []) inbox c h = h
wake-IsPaced now (read (b ∷ chunk)) inbox c h =
    rounds-IsPaced (suc (length (inbox ++ (b ∷ chunk)))) now (inbox ++ (b ∷ chunk)) c h
wake-IsPaced now read_failed inbox c h = h
wake-IsPaced now silence inbox c h = h
wake-IsPaced now (haptic e) inbox c h = call-IsPaced now _ c refl refl h
wake-IsPaced now (sleeping true) inbox c h = call-IsPaced now _ c refl refl h
wake-IsPaced now (sleeping false) inbox c h = call-IsPaced now _ c refl refl h

and_then-IsPaced :
    (s : Served) (next : List ℕ → Channel → Served)
    → IsPaced (channel_of s)
    → ((rest : List ℕ) (d : Channel) → IsPaced d → IsPaced (channel_of (next rest d)))
    → IsPaced (channel_of (and_then s next))
and_then-IsPaced (going rest c) next h on = on rest c h
and_then-IsPaced (ended reason c) next h on = h

run_from :
    (wakes : List (ℕ × Wake)) (inbox : List ℕ) (c : Channel)
    → IsPaced c
    → IsPaced (channel_of (run wakes inbox c))
unfolding run
run_from [] inbox c h = h
run_from ((now, w) ∷ wakes) inbox c h =
    and_then-IsPaced (on_wake now w inbox c) (run wakes) (wake-IsPaced now w inbox c h)
      (run_from wakes)

-- Whatever the headset sends, however it is cut and whenever it comes, on a connection that is opened
-- at any instant: the encoder is asked for keyframes at least 500 ms apart, and settings are answered
-- at least one second apart.
pub run-IsPaced :
    (wakes : List (ℕ × Wake)) (now : ℕ) (recording audio : Bool)
    → IsPaced (channel_of (run wakes [] (open_at now recording audio)))
run-IsPaced wakes now recording audio =
    run_from wakes [] (open_at now recording audio) (open_at-IsPaced now recording audio)
