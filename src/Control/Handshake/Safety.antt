-- ===== src/Control/Handshake/Safety.antt =====
-- Who gets through the handshake, and what is written to whom.
use focus_vision_pcvr.Prelude.{
  ℕ, ◌∙◌, ◌≤◌, ap, sym, subst, ◌≡◌, refl, List, Bool, true, false, not, ◌||◌, [], length, ltb, ◌==◌,
  arith, if◌then◌else◌, ok, err, Bool-cases, inl, inr,
}
use focus_vision_pcvr.Prelude.Words.{le_at}
use focus_vision_pcvr.Control.Pairing.{Clock, World, Answer, verify}
use focus_vision_pcvr.Control.Framing.{Message, Reading, read_message}
use focus_vision_pcvr.Control.StreamConfig.{VideoConfig}
use focus_vision_pcvr.Control.Handshake.{
  HandshakeError, unexpected_message, Server, Outcome, and_then, send, took, read_step_message,
  answer_hello, step_hello_exchange, report_pin, check_pin, step_pin_pairing, start_streaming,
  handle_handshake, hello, pin_request, pin_response,
}

and_then-ok :
    {A B : Type 0} (o : Outcome A) (next : A → Server → Outcome B) (b : B)
    → (and_then o next).1 ≡ ok b
    → (a : A) × (o.1 ≡ ok a) × ((next a o.0).1 ≡ ok b)
and_then-ok (s, ok a) next b h = (a, refl, h)
and_then-ok (s, err e) next b h = absurd (ground (arith, h))

-- Reading a message leaves the pairing state alone.
took-pairing : (s : Server) (r : Reading) → (took s r).0.pairing ≡ s.pairing
took-pairing s (ok (m, rest)) = refl
took-pairing s (err e) = refl

answer_hello-pairing : (m : Message) (s : Server) → (answer_hello m s).0.pairing ≡ s.pairing
unfolding answer_hello send
answer_hello-pairing m s = elim (Bool-cases (m.msg_type == hello)) [
  | inl e ↦ rw e refl
  | inr e ↦ rw e refl
]

and_then-pairing :
    {A B : Type 0} (o : Outcome A) (next : A → Server → Outcome B)
    → ((a : A) (s : Server) → (next a s).0.pairing ≡ s.pairing)
    → (and_then o next).0.pairing ≡ o.0.pairing
and_then-pairing (s, ok a) next h = h a s
and_then-pairing (s, err e) next h = refl

step_hello-pairing : (s : Server) → (step_hello_exchange s).0.pairing ≡ s.pairing
unfolding step_hello_exchange read_step_message
step_hello-pairing s =
    and_then-pairing (took s (read_message s.input)) answer_hello answer_hello-pairing
    ∙ took-pairing s (read_message s.input)

-- What the PIN check lets through was verified.
report_pin-ok :
    (r : World × Answer) (s : Server) (u : Unit) → (report_pin r s).1 ≡ ok u → (r.1 ≡ ok tt)
unfolding report_pin
report_pin-ok (w, ok v) s u h = refl
report_pin-ok (w, err e) s u h = absurd (ground (arith, h))

guard-ok :
    {A : Type 0} (b : Bool) (s : Server) (e : HandshakeError) (o : Outcome A) (a : A)
    → (if b then (s, err e) else o).1 ≡ ok a
    → o.1 ≡ ok a
guard-ok true s e o a h = absurd (ground (arith, h))
guard-ok false s e o a h = h

-- The bytes of a client hold a HELLO and then a PIN that is accepted.
pub record HasPin (now : Clock) (random : ℕ) (input : List ℕ) (w : World) : Type 0 where
  pub greeting : Message
  pub after_greeting : List ℕ
  pub answer : Message
  pub after_answer : List ℕ
  pub greeted : read_message input ≡ ok (greeting, after_greeting)
  pub greeting_type : greeting.msg_type ≡ hello
  pub answered : read_message after_greeting ≡ ok (answer, after_answer)
  pub answer_type : answer.msg_type ≡ pin_response
  pub whole : 4 ≤ length answer.payload
  pub accepted : (verify now random (le_at 4 0 answer.payload) w).1 ≡ ok tt

-- A guard that lets through did not hold.
guard-passed :
    {A : Type 0} (b : Bool) (s : Server) (e : HandshakeError) (o : Outcome A) (a : A)
    → (if b then (s, err e) else o).1 ≡ ok a
    → b ≡ false
guard-passed true s e o a h = absurd (ground (arith, h))
guard-passed false s e o a h = refl

check_pin-ok :
    (now : Clock) (random : ℕ) (m : Message) (s : Server) (u : Unit)
    → (check_pin now random m s).1 ≡ ok u
    → (m.msg_type ≡ pin_response)
      × (4 ≤ length m.payload)
      × ((verify now random (le_at 4 0 m.payload) s.pairing).1 ≡ ok tt)
unfolding check_pin
check_pin-ok now random m s u h =
    let bad = not (m.msg_type == pin_response) || ltb (length m.payload) 4 in
    let reported = report_pin (verify now random (le_at 4 0 m.payload) s.pairing) s in
    let good = guard-passed bad s (unexpected_message m.msg_type) reported u h in
    let passed = guard-ok bad s (unexpected_message m.msg_type) reported u h in
    (
      ground (arith, good),
      ground (arith, good),
      report_pin-ok (verify now random (le_at 4 0 m.payload) s.pairing) s u passed,
    )

-- A message that was read, and what the server is then.
took-ok :
    (s : Server) (r : Reading) (m : Message)
    → (took s r).1 ≡ ok m
    → (rest : List ℕ) × (r ≡ ok (m, rest)) × ((took s r).0 ≡ record s { input = rest })
took-ok s (ok (m', rest)) m h = (rest, ground (arith, h), refl)
took-ok s (err e) m h = absurd (ground (arith, h))

and_then-step :
    {A B : Type 0} (o : Outcome A) (next : A → Server → Outcome B) (a : A)
    → o.1 ≡ ok a
    → and_then o next ≡ next a o.0
and_then-step (s, ok a') next a h = let same : a' ≡ a = ground (arith, h) in ap (λ b. next b s) same
and_then-step (s, err e) next a h = absurd (ground (arith, h))

answer_hello-ok :
    (m : Message) (s : Server) (caps : ℕ)
    → (answer_hello m s).1 ≡ ok caps
    → (m.msg_type ≡ hello) × ((answer_hello m s).0.input ≡ s.input)
unfolding answer_hello send
answer_hello-ok m s caps h = elim (Bool-cases (m.msg_type == hello)) [
  | inl e ↦ rw e (ground (arith, e), refl)
  | inr e ↦ absurd (ground (arith, e, h))
]

-- A greeting that is answered has been read.
hello-ok :
    (s : Server) (caps : ℕ)
    → (step_hello_exchange s).1 ≡ ok caps
    → (m : Message) × (rest : List ℕ) × (read_message s.input ≡ ok (m, rest))
      × (m.msg_type ≡ hello)
      × ((step_hello_exchange s).0.input ≡ rest)
unfolding step_hello_exchange read_step_message
hello-ok s caps h =
    let read = took s (read_message s.input) in
    let got = and_then-ok read answer_hello caps h in
    let from = took-ok s (read_message s.input) got.0 got.1 in
    let said = answer_hello-ok got.0 read.0 caps got.2 in
    (
      got.0,
      from.0,
      from.1,
      said.0,
      ap (λ o. o.0.input) (and_then-step read answer_hello got.0 got.1)
          ∙ (said.1 ∙ ap (λ t. t.input) from.2),
    )

-- And so has the PIN.
pin-ok :
    (now : Clock) (random : ℕ) (s : Server) (u : Unit)
    → (step_pin_pairing now random s).1 ≡ ok u
    → (m : Message) × (rest : List ℕ) × (read_message s.input ≡ ok (m, rest))
      × (m.msg_type ≡ pin_response)
      × (4 ≤ length m.payload)
      × ((verify now random (le_at 4 0 m.payload) s.pairing).1 ≡ ok tt)
unfolding step_pin_pairing read_step_message send
pin-ok now random s u h =
    let asked = send pin_request [] s in
    let read = took asked (read_message s.input) in
    let got = and_then-ok read (check_pin now random) u h in
    let from = took-ok asked (read_message s.input) got.0 got.1 in
    let checked = check_pin-ok now random got.0 read.0 u got.2 in
    (
      got.0,
      from.0,
      from.1,
      checked.0,
      checked.1,
      subst (λ w. (verify now random (le_at 4 0 got.0.payload) w).1 ≡ ok tt)
          (took-pairing asked (read_message s.input)) checked.2,
    )

-- Nobody gets through without the PIN: in a handshake that succeeds, the client's bytes begin with a
-- message HELLO and then a PIN_RESPONSE of at least four bytes, and the PIN in its first four bytes is
-- one that `verify` accepts in the pairing state before the handshake.
pub handshake-verified :
    (scaled : ℕ → ℕ → ℕ) (video : VideoConfig) (now : Clock) (random : ℕ) (s : Server)
    → (handle_handshake scaled video now random s).1 ≡ ok tt
    → HasPin now random s.input s.pairing
unfolding handle_handshake
handshake-verified scaled video now random s h =
    let greeted =
      and_then-ok (step_hello_exchange s)
        (λ caps s₁.
          and_then (step_pin_pairing now random (record s₁ { client_caps = caps }))
            (λ u s₂. start_streaming scaled video caps s₂))
        tt h in
    let s₁ : Server = record (step_hello_exchange s).0 { client_caps = greeted.0 } in
    let paired =
      and_then-ok (step_pin_pairing now random s₁)
        (λ u s₂. start_streaming scaled video greeted.0 s₂) tt greeted.2 in
    let said = hello-ok s greeted.0 greeted.1 in
    let found = pin-ok now random s₁ paired.0 paired.1 in
    record {
      greeting = said.0;
      after_greeting = said.1;
      answer = found.0;
      after_answer = found.1;
      greeted = said.2;
      greeting_type = said.3;
      answered = ap read_message (sym said.4) ∙ found.2;
      answer_type = found.3;
      whole = found.4;
      accepted =
          subst (λ w. (verify now random (le_at 4 0 found.0.payload) w).1 ≡ ok tt)
            (step_hello-pairing s) found.5;
    }
