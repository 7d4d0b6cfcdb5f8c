-- ===== src/Control/Framing.antt =====
-- The length-prefixed messages of control/tcp_server.rs. A stream is the list of the bytes that are
-- still to come; one that ends too soon is the error of `read_exact`.
use focus_vision_pcvr.Prelude.{
  ℕ, zero, suc, ◌+◌, ◌%◌, ◌^◌, ◌<◌, ◌≡◌, refl, List, [], ◌∷◌, ◌++◌, arith, length, length-append,
  append_assoc, take, drop, get_or, take-append_left, drop-append_left, ltb, ◌==◌, ==_ne,
  le→not_ltb, if◌then◌else◌, Result, ok, err, All,
}
use focus_vision_pcvr.Prelude.Words.{to_le_bytes, from_le_bytes, from_le_bytes-to_le_bytes}

-- `MAX_MSG_LEN`
abbrev pub max_msg_len : ℕ
max_msg_len = 65536

pub data IoError : Type 0 where
  unexpected_eof : IoError
  empty_message : IoError
  message_too_large : ℕ → IoError

pub record Message : Type 0 where
  pub msg_type : ℕ
  pub payload : List ℕ

-- The message and what is left of the stream.
abbrev pub Reading : Type 0
Reading = Result IoError (Message × List ℕ)

unfoldable pub read_body : ℕ → List ℕ → Reading
read_body len stream =
    if ltb (length stream) len
    then err unexpected_eof
    else (let msg_buf = take len stream in
        ok (record { msg_type = get_or msg_buf 0 0; payload = drop 1 msg_buf }, drop len stream))

unfoldable pub read_message : List ℕ → Reading
unfolding read_body
read_message stream =
    if ltb (length stream) 4
    then err unexpected_eof
    else (let len = from_le_bytes (take 4 stream) in
        if len == 0
        then err empty_message
        else (if ltb max_msg_len len
            then err (message_too_large len)
            else read_body len (drop 4 stream)))

unfoldable pub send_message : Message → List ℕ
send_message m = to_le_bytes 4 ((1 + length m.payload) % 2 ^ 32) ++ (m.msg_type ∷ m.payload)

-- The bytes of several messages, one after the other.
unfoldable pub send_all : List Message → List ℕ
send_all [] = []
send_all (m ∷ messages) = send_message m ++ send_all messages

abbrev pub Readings : Type 0
Readings = Result IoError (List Message × List ℕ)

abbrev with_rest : Message → Readings → Readings
with_rest m (err e) = err e
with_rest m (ok (messages, stream)) = ok (m ∷ messages, stream)

abbrev then_read : Reading → (List ℕ → Readings) → Readings
then_read (err e) more = err e
then_read (ok (m, stream)) more = with_rest m (more stream)

-- As many messages as asked for.
unfoldable pub read_count : ℕ → List ℕ → Readings
read_count zero stream = ok ([], stream)
read_count (suc n) stream = then_read (read_message stream) (read_count n)

read_body-message :
    (m : Message) (rest : List ℕ)
    → read_body (suc (length m.payload)) (m.msg_type ∷ (m.payload ++ rest)) ≡ ok (m, rest)
unfolding read_body
read_body-message m rest =
    rw
      (
        le→not_ltb (suc (length (m.payload ++ rest))) (suc (length m.payload))
            (omega (arith, length-append m.payload rest)),
        take-append_left m.payload rest,
        drop-append_left m.payload rest,
      )
      refl

-- Where the sent length is known, `read_message` goes by it.
read_message-length :
    (m : Message) (rest : List ℕ)
    → 1 + length m.payload < 2 ^ 32
    → read_message (send_message m ++ rest) ≡ (
        if ltb max_msg_len (suc (length m.payload))
        then err (message_too_large (suc (length m.payload)))
        else read_body (suc (length m.payload)) (m.msg_type ∷ (m.payload ++ rest)))
unfolding read_message send_message
read_message-length m rest h =
    let len : (1 + length m.payload) % 2 ^ 32 ≡ suc (length m.payload) = omega arith in
    rw
      (
        le→not_ltb (suc (suc (suc (suc (suc (length (m.payload ++ rest))))))) 4 (omega arith),
        len,
        from_le_bytes-to_le_bytes 4 (suc (length m.payload)) (omega arith),
        ==_ne (suc (length m.payload)) 0 (λ e. omega (arith, e)),
      )
      refl

-- Any message of less than 2^32 bytes, sent in front of any bytes: up to 65536 bytes with its type it is
-- read back whole and the stream is left at the byte after it, and a longer one is refused by its
-- length.
pub read-send_message :
    (m : Message) (rest : List ℕ)
    → 1 + length m.payload < 2 ^ 32
    → read_message (send_message m ++ rest) ≡ (
        if ltb max_msg_len (suc (length m.payload))
        then err (message_too_large (suc (length m.payload)))
        else ok (m, rest))
read-send_message m rest h = rw (read_message-length m rest h, read_body-message m rest) refl

-- Any sequence of messages of at most 65536 bytes each with their types, sent in front of any bytes,
-- is read back as it was sent, and the stream is left at the byte after it.
pub read_count-send_all :
    (messages : List Message) (rest : List ℕ)
    → All (λ m. length m.payload < 65536) messages
    → read_count (length messages) (send_all messages ++ rest) ≡ ok (messages, rest)
unfolding read_count send_all
read_count-send_all [] rest h = refl
read_count-send_all (m ∷ messages) rest h =
    rw
      (
        append_assoc (send_message m) (send_all messages) rest,
        read-send_message m (send_all messages ++ rest) (omega (arith, h)),
        le→not_ltb max_msg_len (suc (length m.payload)) (omega (arith, h)),
        read_count-send_all messages rest h.1,
      )
      refl
