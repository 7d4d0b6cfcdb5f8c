-- ===== src/Engine/Serve/Delivery.antt =====
-- The loop of the connection against one that knows the messages and sees only how many bytes have come.
use focus_vision_pcvr.Prelude.{
  ℕ, suc, ◌+◌, ◌-◌, ◌≤◌, ◌<◌, ◌≡◌, refl, sym, ap, ◌∙◌, Bool-cases, inl, inr, leb, leb-cases, lt→ltb,
  le→not_ltb, ltb-cases, ==_ne, ◌%◌, ◌^◌, none, List, [], ◌∷◌, ◌++◌, All, arith, append_assoc,
  length, length-append, length-drop, take, drop, take-append-drop, take-append_left,
  drop-append_left, take-append_le, drop-append_le, ◌==◌, if◌then◌else◌, ok,
}
use focus_vision_pcvr.Prelude.Words.{from_le_bytes, from_le_bytes-to_le_bytes}
use focus_vision_pcvr.Control.Framing.{max_msg_len, Message, send_message, send_all}
use focus_vision_pcvr.Engine.Haptic.{to_payload}
use focus_vision_pcvr.Engine.Inbox.{take_round, take_control_message}
use focus_vision_pcvr.Engine.Inbox.Laws.{take_control_message-round, take_control_message-send}
use focus_vision_pcvr.Engine.Control.{Channel, send, client_requested, connection_lost}
use focus_vision_pcvr.Engine.Serve.{
  handle_message, msg_disconnect, msg_haptic_event, msg_sleep_enter, msg_sleep_exit, Served, going,
  ended, and_then, serve_taken, serve, on_read, Wake, read, read_failed, silence, haptic, sleeping,
  on_wake, run,
}
use focus_vision_pcvr.Engine.Serve.Segments.{serve-round, serve-nil}

abbrev pub size : Message → ℕ
size m = length (send_message m)

-- With `n` bytes there, every message that is complete is handled, up to a DISCONNECT; `next` goes on.
unfoldable pub take_due :
    ℕ → ℕ → List Message → Channel → (ℕ → List Message → Channel → Served) → Served
unfolding handle_message
take_due now n [] c next = next n [] c
take_due now n (m ∷ messages) c next =
    let rest =
      take_due now (n - size m) messages (handle_message now m.msg_type m.payload c) next in
    if leb (size m) n
    then (if m.msg_type == msg_disconnect then ended client_requested c else rest)
    else next n (m ∷ messages) c

-- The bytes of the reads.
abbrev pub bytes_of : List (ℕ × Wake) → List ℕ
bytes_of [] = []
bytes_of ((now, read chunk) ∷ wakes) = chunk ++ bytes_of wakes
bytes_of ((now, read_failed) ∷ wakes) = bytes_of wakes
bytes_of ((now, silence) ∷ wakes) = bytes_of wakes
bytes_of ((now, haptic e) ∷ wakes) = bytes_of wakes
bytes_of ((now, sleeping b) ∷ wakes) = bytes_of wakes

-- The connection with `n` bytes of the messages there that have not been used.
unfoldable pub deliver : List (ℕ × Wake) → ℕ → List Message → Channel → Served
unfolding take_due
deliver [] n messages c = going (take n (send_all messages)) c
deliver ((now, read []) ∷ wakes) n messages c = ended connection_lost c
deliver ((now, read (b ∷ chunk)) ∷ wakes) n messages c =
    take_due now (n + length (b ∷ chunk)) messages c (deliver wakes)
deliver ((now, read_failed) ∷ wakes) n messages c = ended connection_lost c
deliver ((now, silence) ∷ wakes) n messages c = ended connection_lost c
deliver ((now, haptic e) ∷ wakes) n messages c =
    deliver wakes n messages (send now msg_haptic_event (to_payload e) c)
deliver ((now, sleeping b) ∷ wakes) n messages c =
    deliver wakes n messages (send now (if b then msg_sleep_enter else msg_sleep_exit) [] c)

-- What a list begins with.
front :
    (a b q rest : List ℕ) → q ++ rest ≡ a ++ b → length a ≤ length q → q ≡ a ++ drop (length a) q
front a b q rest same long =
    sym (take-append-drop (length a) q)
    ∙ ap (λ t. t ++ drop (length a) q)
        (sym (take-append_le (length a) q rest long)
          ∙ (ap (take (length a)) same ∙ take-append_left a b))

behind :
    (a b q rest : List ℕ) → q ++ rest ≡ a ++ b → length a ≤ length q → drop (length a) q ++ rest ≡ b
behind a b q rest same long =
    sym (drop-append_le (length a) q rest long) ∙ (ap (drop (length a)) same ∙ drop-append_left a b)

-- The length at the front of a message.
length_at :
    (m : Message) (more : List ℕ)
    → length m.payload < 65536
    → from_le_bytes (take 4 (send_message m ++ more)) ≡ suc (length m.payload)
unfolding send_message
length_at m more small =
    let len : (1 + length m.payload) % 2 ^ 32 ≡ suc (length m.payload) = omega (arith, small) in
    rw len (from_le_bytes-to_le_bytes 4 (suc (length m.payload)) (omega (arith, small)))

pub size-eq : (m : Message) → size m ≡ 5 + length m.payload
unfolding send_message
size-eq m = omega arith

-- A part of a message, but not all of it, is left as it is.
take_control_message-part :
    (m : Message) (q rest more : List ℕ)
    → length m.payload < 65536
    → q ++ rest ≡ send_message m ++ more
    → length q < size m
    → take_control_message q ≡ (ok none, q)
unfolding take_round
take_control_message-part m q rest more small same short = elim (ltb-cases (length q) 4) [
  | inl few ↦ rw (take_control_message-round q, few.0) refl
  | inr four ↦
      let len : from_le_bytes (take 4 q) ≡ suc (length m.payload) =
        ap from_le_bytes (sym (take-append_le 4 q rest four.1) ∙ ap (take 4) same)
        ∙ length_at m more small in
      rw
        (
          take_control_message-round q,
          four.0,
          len,
          ==_ne (suc (length m.payload)) 0 (λ e. omega (arith, e)),
          le→not_ltb max_msg_len (suc (length m.payload)) (omega (arith, small)),
          lt→ltb (length q) (4 + suc (length m.payload)) (omega (arith, short, size-eq m)),
        )
        refl
]

serve-part :
    (now : ℕ) (m : Message) (q rest more : List ℕ) (c : Channel)
    → length m.payload < 65536
    → q ++ rest ≡ send_message m ++ more
    → length q < size m
    → serve now q c ≡ going q c
unfolding serve_taken
serve-part now m q rest more c small same short =
    rw (serve-round now q c, take_control_message-part m q rest more small same short) refl

serve-whole :
    (now : ℕ) (m : Message) (q : List ℕ) (c : Channel)
    → length m.payload < 65536
    → serve now (send_message m ++ q) c ≡ (
        if m.msg_type == msg_disconnect
        then ended client_requested c
        else serve now q (handle_message now m.msg_type m.payload c))
unfolding serve_taken
serve-whole now m q c small =
    rw (serve-round now (send_message m ++ q) c, take_control_message-send m q small) refl

-- What is done with the bytes and with the messages, where what follows agrees.
Agrees : List ℕ → (List ℕ → Channel → Served) → (ℕ → List Message → Channel → Served) → Type 0
Agrees rest f g =
    (q : List ℕ) (messages : List Message) (c : Channel)
    → All (λ m. length m.payload < 65536) messages
    → q ++ rest ≡ send_all messages
    → f q c ≡ g (length q) messages c

empty_front : (q rest : List ℕ) → q ++ rest ≡ [] → q ≡ []
empty_front [] rest e = refl
empty_front (b ∷ q) rest e = absurd (ground (arith, ap length e))

serve-due :
    (now : ℕ) (messages : List Message) (q rest : List ℕ) (c : Channel)
    (f : List ℕ → Channel → Served) (g : ℕ → List Message → Channel → Served)
    → Agrees rest f g
    → All (λ m. length m.payload < 65536) messages
    → q ++ rest ≡ send_all messages
    → and_then (serve now q c) f ≡ take_due now (length q) messages c g
unfolding take_due send_all Agrees
serve-due now [] q rest c f g agrees small same =
    let none_there = empty_front q rest same in
    ap (λ i. and_then (serve now i c) f) none_there
    ∙ (ap (λ s. and_then s f) (serve-nil now c)
        ∙ (ap (λ i. f i c) (sym none_there) ∙ agrees q [] c tt same))
serve-due now (m ∷ messages) q rest c f g agrees small same = elim (leb-cases (size m) (length q)) [
  | inl whole ↦
      let left = drop (size m) q in
      let count : length left ≡ length q - size m = length-drop (size m) q in
      let next =
        serve-due now messages left rest (handle_message now m.msg_type m.payload c) f g agrees
          small.1 (behind (send_message m) (send_all messages) q rest same whole.1) in
      ap (λ i. and_then (serve now i c) f)
        (front (send_message m) (send_all messages) q rest same whole.1)
      ∙ (ap (λ s. and_then s f) (serve-whole now m left c small.0)
          ∙ elim (Bool-cases (m.msg_type == msg_disconnect)) [
            | inl e ↦ rw (whole.0, e) refl
            | inr e ↦ rw (whole.0, e, ← count) next
          ])
  | inr part ↦
      ap (λ s. and_then s f) (serve-part now m q rest (send_all messages) c small.0 same part.1)
      ∙ (agrees q (m ∷ messages) c small same ∙ rw part.0 refl)
]

-- Whatever wakes the connection, at whatever instants and in whatever order, reads cut anywhere among
-- haptic events, sleep notices, failures and silences: where the bytes of the reads are the beginning
-- of what was sent, messages of at most 65536 bytes with their type, the loop does what one does that
-- knows the messages and sees only how many bytes have come. Each message is handled once and in
-- order, up to the first DISCONNECT, at the read that completes it; an end of the stream, a failure
-- or a silence ends the connection; and what is left in the inbox are the bytes not used.
pub run-deliver :
    (wakes : List (ℕ × Wake)) (messages : List Message) (inbox unread : List ℕ) (c : Channel)
    → All (λ m. length m.payload < 65536) messages
    → inbox ++ (bytes_of wakes ++ unread) ≡ send_all messages
    → run wakes inbox c ≡ deliver wakes (length inbox) messages c
unfolding run deliver on_wake on_read Agrees
run-deliver [] messages inbox unread c small same =
    ap (λ i. going i c) (sym (take-append_left inbox unread) ∙ ap (take (length inbox)) same)
run-deliver ((now, read []) ∷ wakes) messages inbox unread c small same = refl
run-deliver ((now, read (b ∷ chunk)) ∷ wakes) messages inbox unread c small same =
    let rest = bytes_of wakes ++ unread in
    let regrouped : (inbox ++ (b ∷ chunk)) ++ rest ≡ send_all messages =
      append_assoc inbox (b ∷ chunk) rest
      ∙ (ap (λ t. inbox ++ t) (sym (append_assoc (b ∷ chunk) (bytes_of wakes) unread)) ∙ same) in
    serve-due now messages (inbox ++ (b ∷ chunk)) rest c (run wakes) (deliver wakes)
      (λ q ms d h e. run-deliver wakes ms q unread d h e) small regrouped
    ∙ ap (λ n. take_due now n messages c (deliver wakes)) (length-append inbox (b ∷ chunk))
run-deliver ((now, read_failed) ∷ wakes) messages inbox unread c small same = refl
run-deliver ((now, silence) ∷ wakes) messages inbox unread c small same = refl
run-deliver ((now, haptic e) ∷ wakes) messages inbox unread c small same =
    run-deliver wakes messages inbox unread (send now msg_haptic_event (to_payload e) c) small same
run-deliver ((now, sleeping b) ∷ wakes) messages inbox unread c small same =
    run-deliver wakes messages inbox unread
      (send now (if b then msg_sleep_enter else msg_sleep_exit) [] c) small same
