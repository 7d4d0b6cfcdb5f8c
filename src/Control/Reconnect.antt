-- ===== src/Control/Reconnect.antt =====
-- The reconnect counters of control/reconnect.rs.
use focus_vision_pcvr.Prelude.{
  ℕ, zero, suc, ◌+◌, ◌-◌, ◌*◌, ◌^◌, ◌≤◌, ◌<◌, ◌≡◌, ◌⊎◌, inl, inr, refl, min, Bool, true, false,
  Option, none, some, List, [], ◌∷◌, ap, Bool-cases, arith, ltb, leb, ◌==◌, if◌then◌else◌,
}

abbrev pub max_accept_failures : ℕ
max_accept_failures = 5

abbrev pub max_reconnect_attempts : ℕ
max_reconnect_attempts = 10

pub record ReconnectState : Type 0 where
  pub accept_failures : ℕ
  pub reconnect_attempts : ℕ

unfoldable pub new : ReconnectState
new = record { accept_failures = 0; reconnect_attempts = 0 }

-- `saturating_add(1)` on a `u32`.
abbrev pub saturating_suc : ℕ → ℕ
saturating_suc n = min (n + 1) (2 ^ 32 - 1)

unfoldable pub record_accept_failure : ReconnectState → ReconnectState
record_accept_failure s = record s { accept_failures = saturating_suc s.accept_failures }

unfoldable pub record_accept_success : ReconnectState → ReconnectState
record_accept_success s = record s { accept_failures = 0 }

unfoldable pub record_clean_disconnect : ReconnectState → ReconnectState
record_clean_disconnect s = record { accept_failures = 0; reconnect_attempts = 0 }

unfoldable pub record_connection_lost : ReconnectState → ReconnectState
record_connection_lost s = record s { reconnect_attempts = saturating_suc s.reconnect_attempts }

unfoldable pub record_protocol_error : ReconnectState → ReconnectState
record_protocol_error s = record s { reconnect_attempts = saturating_suc s.reconnect_attempts }

unfoldable pub record_hold_accept_failure : ReconnectState → ReconnectState
record_hold_accept_failure s = record s { accept_failures = saturating_suc s.accept_failures }

unfoldable pub is_listener_failing : ReconnectState → Bool
is_listener_failing s = leb max_accept_failures s.accept_failures

unfoldable pub is_reconnect_warning_due : ReconnectState → Bool
is_reconnect_warning_due s = ltb max_reconnect_attempts s.reconnect_attempts

-- Seconds; the base is one second, and the shift is at most 4.
unfoldable pub next_backoff : ReconnectState → Option ℕ
next_backoff s =
    if s.accept_failures == 0 then none else some (1 * 2 ^ min (s.accept_failures - 1) 4)

-- What the engine reports to the counters.
pub data Event : Type 0 where
  accept_failure : Event
  accept_success : Event
  clean_disconnect : Event
  connection_lost : Event
  protocol_error : Event
  hold_accept_failure : Event

unfoldable pub step : Event → ReconnectState → ReconnectState
unfolding record_accept_failure record_accept_success record_clean_disconnect record_connection_lost
    record_protocol_error record_hold_accept_failure
step accept_failure s = record_accept_failure s
step accept_success s = record_accept_success s
step clean_disconnect s = record_clean_disconnect s
step connection_lost s = record_connection_lost s
step protocol_error s = record_protocol_error s
step hold_accept_failure s = record_hold_accept_failure s

unfoldable pub run : List Event → ReconnectState → ReconnectState
run [] s = s
run (e ∷ events) s = run events (step e s)

-- The events that count as a failing listener.
abbrev pub is_accept_failure : Event → Bool
is_accept_failure accept_failure = true
is_accept_failure hold_accept_failure = true
is_accept_failure accept_success = false
is_accept_failure clean_disconnect = false
is_accept_failure connection_lost = false
is_accept_failure protocol_error = false

module _ where
  step-failures :
      (e : Event) (s : ReconnectState)
      → (step e s).accept_failures ≤ s.accept_failures + (if is_accept_failure e then 1 else 0)
  unfolding step record_accept_failure record_accept_success record_clean_disconnect
      record_connection_lost record_protocol_error record_hold_accept_failure
  step-failures accept_failure s = omega arith
  step-failures accept_success s = omega arith
  step-failures clean_disconnect s = omega arith
  step-failures connection_lost s = omega arith
  step-failures protocol_error s = omega arith
  step-failures hold_accept_failure s = omega arith

abbrev pub count_failures : List Event → ℕ
count_failures [] = 0
count_failures (e ∷ events) = (if is_accept_failure e then 1 else 0) + count_failures events

run-failures :
    (events : List Event) (s : ReconnectState)
    → (run events s).accept_failures ≤ s.accept_failures + count_failures events
unfolding run
run-failures [] s = omega arith
run-failures (e ∷ events) s = omega (arith, run-failures events (step e s), step-failures e s)

-- Lost connections and protocol errors alone never make the listener count as failing: after any
-- events from the initial state with fewer than five failures to accept among them, however many
-- reconnects there were, `is_listener_failing` is false.
pub few_failures :
    (events : List Event) → count_failures events < 5 → is_listener_failing (run events new) ≡ false
unfolding is_listener_failing new
few_failures events h = ground (arith, run-failures events new)

abbrev pub repeat_event : ℕ → Event → List Event
repeat_event zero e = []
repeat_event (suc n) e = e ∷ repeat_event n e

repeat-accept_failures :
    (n : ℕ) (s : ReconnectState)
    → s.accept_failures + n < 2 ^ 32
    → (run (repeat_event n accept_failure) s).accept_failures ≡ s.accept_failures + n
unfolding run step record_accept_failure
repeat-accept_failures zero s h = omega arith
repeat-accept_failures (suc n) s h =
    omega (arith, repeat-accept_failures n (record_accept_failure s) (omega arith))

-- After n + 1 failures in a row from the initial state, fewer than 2^32, the wait is
-- 2^min(n, 4) seconds: it doubles from one second and stays at sixteen.
pub backoff_doubles :
    (n : ℕ)
    → n + 1 < 2 ^ 32
    → next_backoff (run (repeat_event (suc n) accept_failure) new) ≡ some (2 ^ min n 4)
unfolding next_backoff new
backoff_doubles n h =
    let failed = repeat-accept_failures (suc n) new (omega arith) in rw failed (ground arith)

shift_within : (n : ℕ) → n ≤ 4 → (1 ≤ 2 ^ n) × (2 ^ n ≤ 16)
shift_within zero h = omega arith
shift_within (suc zero) h = omega arith
shift_within (suc (suc zero)) h = omega arith
shift_within (suc (suc (suc zero))) h = omega arith
shift_within (suc (suc (suc (suc zero)))) h = omega arith
shift_within (suc (suc (suc (suc (suc n))))) h = absurd (omega arith)

-- A wait, where there is one, is between one and sixteen seconds, in every state; there is none
-- exactly when no failure is pending.
next_backoff-bounds :
    (s : ReconnectState)
    → ((s.accept_failures ≡ 0) × (next_backoff s ≡ none))
      ⊎ ((w : ℕ) × (next_backoff s ≡ some w) × (1 ≤ w) × (w ≤ 16))
unfolding next_backoff
next_backoff-bounds s = elim (Bool-cases (s.accept_failures == 0)) [
  | inl e ↦ inl (ground (arith, e), rw e refl)
  | inr ne ↦
      let within = shift_within (min (s.accept_failures - 1) 4) (omega arith) in
      inr (2 ^ min (s.accept_failures - 1) 4, rw ne (ap some (omega arith)), within.0, within.1)
]
