-- ===== src/Engine/Serve/Segments.antt =====
-- Serving an inbox without the fuel.
use focus_vision_pcvr.Prelude.{
  ℕ, zero, suc, ◌<◌, ◌≡◌, refl, none, some, List, [], arith, length, get_or, drop, ok, err,
}
use focus_vision_pcvr.Engine.Inbox.{Taken, take_rounds, take_round, take_control_message}
use focus_vision_pcvr.Engine.Inbox.Laws.{Shrinks, take_control_message-Shrinks}
use focus_vision_pcvr.Engine.Control.{Channel}
use focus_vision_pcvr.Engine.Serve.{handle_message, Served, going, serve_taken, serve_rounds, serve}

-- Two ways to serve what is left are the same on what is left.
serve_taken-same :
    (now : ℕ) (t : Taken) (c : Channel) (n : ℕ) (f g : List ℕ → Channel → Served)
    → Shrinks n t
    → ((rest : List ℕ) (d : Channel) → length rest < n → f rest d ≡ g rest d)
    → serve_taken now t c f ≡ serve_taken now t c g
unfolding serve_taken
serve_taken-same now (ok none, rest) c n f g s same = refl
serve_taken-same now (err len, rest) c n f g s same = refl
serve_taken-same now (ok (some msg), rest) c n f g s same =
    rw (same rest (handle_message now (get_or msg 0 0) (drop 1 msg) c) s) refl

enough_rounds :
    (n m now : ℕ) (inbox : List ℕ) (c : Channel)
    → length inbox < n
    → length inbox < m
    → serve_rounds n now inbox c ≡ serve_rounds m now inbox c
unfolding serve_rounds
enough_rounds zero m now inbox c h k = absurd (omega (arith, h))
enough_rounds (suc n) zero now inbox c h k = absurd (omega (arith, k))
enough_rounds (suc n) (suc m) now inbox c h k =
    serve_taken-same now (take_control_message inbox) c (length inbox) (serve_rounds n now)
      (serve_rounds m now) (take_control_message-Shrinks inbox)
      (λ rest d s. enough_rounds n m now rest d (omega (arith, h, s)) (omega (arith, k, s)))

-- The loop without its fuel.
pub serve-round :
    (now : ℕ) (inbox : List ℕ) (c : Channel)
    → serve now inbox c ≡ serve_taken now (take_control_message inbox) c (serve now)
unfolding serve serve_rounds
serve-round now inbox c =
    serve_taken-same now (take_control_message inbox) c (length inbox)
      (serve_rounds (length inbox) now) (serve now) (take_control_message-Shrinks inbox)
      (λ rest d s.
        enough_rounds (length inbox) (suc (length rest)) now rest d (omega (arith, s))
          (omega arith))

pub serve-nil : (now : ℕ) (c : Channel) → serve now [] c ≡ going [] c
unfolding serve serve_rounds serve_taken take_control_message take_rounds take_round
serve-nil now c = refl
