-- ===== src/Engine/Inbox/Laws.antt =====
-- Taking a message without the fuel, and what is left.
use focus_vision_pcvr.Prelude.{
  ℕ, zero, suc, ◌+◌, ◌-◌, ◌≤◌, ◌<◌, ◌≡◌, refl, ap, subst, none, some, List, ◌∷◌, ◌++◌, arith,
  length, length-append, length-drop, take, drop, take-append_left, drop-append_left, ==_ne, ◌%◌,
  ◌^◌, ltb, ◌==◌, ok, err, Bool-cases, ltb-cases, inl, inr, le→not_ltb,
}
use focus_vision_pcvr.Prelude.Words.{from_le_bytes, from_le_bytes-to_le_bytes}
use focus_vision_pcvr.Control.Framing.{max_msg_len, Message, send_message}
use focus_vision_pcvr.Engine.Inbox.{Taken, take_round, take_rounds, take_control_message}

-- More fuel than bytes makes no difference.
enough_rounds :
    (n m : ℕ) (inbox : List ℕ)
    → length inbox < n
    → length inbox < m
    → take_rounds n inbox ≡ take_rounds m inbox
unfolding take_rounds take_round
enough_rounds zero m inbox h k = absurd (omega (arith, h))
enough_rounds (suc n) zero inbox h k = absurd (omega (arith, k))
enough_rounds (suc n) (suc m) inbox h k = elim (ltb-cases (length inbox) 4) [
  | inl short ↦ rw (short.0) refl
  | inr long ↦
      let left = length-drop 4 inbox in
      ap (take_round inbox) (
        enough_rounds n m (drop 4 inbox) (omega (arith, left, long.1))
          (omega (arith, left, long.1)))
]

-- The loop without its fuel.
pub take_control_message-round :
    (inbox : List ℕ)
    → take_control_message inbox ≡ take_round inbox (take_control_message (drop 4 inbox))
unfolding take_control_message take_rounds take_round
take_control_message-round inbox = elim (ltb-cases (length inbox) 4) [
  | inl short ↦ rw (short.0) refl
  | inr long ↦
      let left = length-drop 4 inbox in
      ap (take_round inbox) (
        enough_rounds (length inbox) (suc (length (drop 4 inbox))) (drop 4 inbox)
          (omega (arith, left, long.1)) (omega arith))
]

-- How many bytes are left, counted with those of the message taken.
abbrev pub Shrinks : ℕ → Taken → Type 0
Shrinks n (ok none, rest) = length rest ≤ n
Shrinks n (ok (some m), rest) = length rest < n
Shrinks n (err len, rest) = length rest ≤ n

Shrinks-weaken : (m n : ℕ) (t : Taken) → m ≤ n → Shrinks m t → Shrinks n t
Shrinks-weaken m n (ok none, rest) h s = omega (arith, h, s)
Shrinks-weaken m n (ok (some msg), rest) h s = omega (arith, h, s)
Shrinks-weaken m n (err len, rest) h s = omega (arith, h, s)

take_round-Shrinks :
    (inbox : List ℕ) (next : Taken)
    → Shrinks (length inbox - 4) next
    → Shrinks (length inbox) (take_round inbox next)
unfolding take_round
take_round-Shrinks inbox next h =
    let len = from_le_bytes (take 4 inbox) in
    elim (ltb-cases (length inbox) 4) [
      | inl short ↦ rw (short.0) (omega arith)
      | inr long ↦ elim (Bool-cases (len == 0)) [
        | inl empty ↦
            rw (long.0, empty)
              (Shrinks-weaken (length inbox - 4) (length inbox) next (omega arith) h)
        | inr some_bytes ↦ elim (Bool-cases (ltb max_msg_len len)) [
          | inl large ↦ rw (long.0, some_bytes, large) (omega arith)
          | inr small ↦ elim (ltb-cases (length inbox) (4 + len)) [
            | inl partial ↦ rw (long.0, some_bytes, small, partial.0) (omega arith)
            | inr whole ↦
                rw (long.0, some_bytes, small, whole.0)
                  (omega (arith, length-drop (4 + len) inbox, long.1))
          ]
        ]
      ]
    ]

Shrinks-from : (fuel : ℕ) (inbox : List ℕ) → Shrinks (length inbox) (take_rounds fuel inbox)
unfolding take_rounds
Shrinks-from zero inbox = omega arith
Shrinks-from (suc fuel) inbox =
    let next = take_rounds fuel (drop 4 inbox) in
    take_round-Shrinks inbox next
      (subst (λ n. Shrinks n next) (length-drop 4 inbox) (Shrinks-from fuel (drop 4 inbox)))

pub take_control_message-Shrinks :
    (inbox : List ℕ) → Shrinks (length inbox) (take_control_message inbox)
unfolding take_control_message
take_control_message-Shrinks inbox = Shrinks-from (suc (length inbox)) inbox

-- A message that was sent is taken whole.
pub take_control_message-send :
    (m : Message) (rest : List ℕ)
    → length m.payload < 65536
    → take_control_message (send_message m ++ rest) ≡ (ok (some (m.msg_type ∷ m.payload)), rest)
unfolding take_round send_message
take_control_message-send m rest h =
    let len : (1 + length m.payload) % 2 ^ 32 ≡ suc (length m.payload) = omega (arith, h) in
    let joined = length-append m.payload rest in
    let five : 4 + suc (length m.payload) ≡ suc (suc (suc (suc (suc (length m.payload))))) =
      omega arith in
    rw
      (
        take_control_message-round (send_message m ++ rest),
        le→not_ltb (suc (suc (suc (suc (suc (length (m.payload ++ rest))))))) 4 (omega arith),
        len,
        from_le_bytes-to_le_bytes 4 (suc (length m.payload)) (omega (arith, h)),
        ==_ne (suc (length m.payload)) 0 (λ e. omega (arith, e)),
        le→not_ltb max_msg_len (suc (length m.payload)) (omega (arith, h)),
        le→not_ltb (suc (suc (suc (suc (suc (length (m.payload ++ rest)))))))
            (4 + suc (length m.payload)) (omega (arith, joined)),
        five,
        take-append_left m.payload rest,
        drop-append_left m.payload rest,
      )
      refl
