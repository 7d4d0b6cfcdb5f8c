-- ===== src/Engine/Haptic.antt =====
-- `HapticEvent` and `HapticRoute` of engine.rs. A float is its bit pattern; a channel is known by a number.
use focus_vision_pcvr.Prelude.{
  ℕ, ◌+◌, ◌%◌, ◌^◌, ◌<◌, ◌≡◌, Bool, Option, none, some, List, ◌∷◌, ◌++◌, arith, length, get_or, ltb,
  ◌==◌, if◌then◌else◌,
}
use focus_vision_pcvr.Prelude.Words.{to_le_bytes, le_at, from_le_bytes-to_le_bytes}

pub record HapticEvent : Type 0 where
  pub controller_id : ℕ
  pub duration_ms : ℕ
  pub frequency : ℕ
  pub amplitude : ℕ

abbrev pub IsHaptic : HapticEvent → Type 0
IsHaptic e = (e.duration_ms < 2 ^ 16) × (e.frequency < 2 ^ 32) × (e.amplitude < 2 ^ 32)

unfoldable pub to_payload : HapticEvent → List ℕ
to_payload e =
    e.controller_id
    ∷ (to_le_bytes 2 e.duration_ms ++ (to_le_bytes 4 e.frequency ++ to_le_bytes 4 e.amplitude))

unfoldable pub from_payload : List ℕ → Option HapticEvent
from_payload data_bytes =
    if ltb (length data_bytes) 11
    then none
    else some (record {
      controller_id = get_or data_bytes 0 0;
      duration_ms = le_at 2 1 data_bytes;
      frequency = le_at 4 3 data_bytes;
      amplitude = le_at 4 7 data_bytes;
    })

-- An event of words in their range is read back, whatever follows it.
pub from_payload-to_payload :
    (e : HapticEvent) (rest : List ℕ) → IsHaptic e → from_payload (to_payload e ++ rest) ≡ some e
unfolding from_payload to_payload
from_payload-to_payload e rest h = ground (
  arith,
  from_le_bytes-to_le_bytes 2 e.duration_ms (omega (arith, h)),
  from_le_bytes-to_le_bytes 4 e.frequency (omega (arith, h)),
  from_le_bytes-to_le_bytes 4 e.amplitude (omega (arith, h)),
)

-- Where haptic events go: to the channel of one session, if any.
abbrev pub Slot : Type 0
Slot = Option ℕ

unfoldable pub install : ℕ → Slot → Slot
install tx slot = some tx

-- The end of the route of `tx`: another session's stays.
unfoldable pub drop_route : ℕ → Slot → Slot
drop_route tx none = none
drop_route tx (some current) = if current == tx then none else some current

-- What `queue_haptic` finds: no session, a full channel, or room. `has_room` is the channel's answer.
unfoldable pub queue_haptic : (ℕ → Bool) → Slot → ℕ → Option ℕ × ℕ
queue_haptic has_room none drops = (none, drops)
queue_haptic has_room (some tx) drops =
    if has_room tx then (some tx, drops) else (none, (drops + 1) % 2 ^ 64)
