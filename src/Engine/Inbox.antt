-- ===== src/Engine/Inbox.antt =====
-- `take_control_message` of engine.rs: the messages on a control connection are taken off the front of
-- the bytes read so far.
pub mod Laws
use focus_vision_pcvr.Prelude.{
  ℕ, zero, suc, ◌+◌, ◌≤◌, ◌<◌, ◌≡◌, refl, Bool, true, false, Option, none, some, List, [], ◌∷◌,
  ◌++◌, arith, length, length-append, length-drop, take, drop, ltb, ◌==◌, if◌then◌else◌, Result, ok,
  err, Bool-cases, inl, inr,
}
use focus_vision_pcvr.Prelude.Words.{from_le_bytes}
use focus_vision_pcvr.Control.Framing.{max_msg_len}

-- The answer, and the inbox afterwards. A message is its type and payload; an error is its length.
abbrev pub Taken : Type 0
Taken = Result ℕ (Option (List ℕ)) × List ℕ

-- One round of the loop, given what the next round would do.
unfoldable pub take_round : List ℕ → Taken → Taken
take_round inbox next =
    if ltb (length inbox) 4
    then (ok none, inbox)
    else (let len = from_le_bytes (take 4 inbox) in
        if len == 0
        then next
        else (if ltb max_msg_len len
            then (err len, inbox)
            else (if ltb (length inbox) (4 + len)
                then (ok none, inbox)
                else (ok (some (drop 4 (take (4 + len) inbox))), drop (4 + len) inbox))))

-- The loop; each round that goes on has drained an empty frame.
unfoldable pub take_rounds : ℕ → List ℕ → Taken
unfolding take_round
take_rounds zero inbox = (ok none, inbox)
take_rounds (suc fuel) inbox = let next = take_rounds fuel (drop 4 inbox) in take_round inbox next

unfoldable pub take_control_message : List ℕ → Taken
unfolding take_rounds
take_control_message inbox = take_rounds (suc (length inbox)) inbox
