-- ===== src/Control/Pairing.antt =====
-- PIN pairing with its lockout, as control/pairing.rs has it. A clock reading gives the monotonic
-- instant and the unix time, both in microseconds, and a duration is a number of microseconds; the
-- record on disk is the number it holds, 0 where there is none, and a write to it succeeds. The
-- random number that a new PIN is made from is an argument.
pub mod Lockout
pub mod Accepted
use focus_vision_pcvr.Prelude.{
  ℕ, ◌+◌, ◌-◌, ◌*◌, ◌%◌, ◌^◌, min, Bool, true, false, Option, none, some, bit_xor, ltb, leb, ◌==◌,
  if◌then◌else◌, Result, ok, err,
}

pub record PairingLimits : Type 0 where
  pub max_attempts : ℕ
  pub lockout : ℕ

-- `Default for PairingLimits`: five attempts, 300 seconds.
unfoldable pub default_limits : PairingLimits
default_limits = record { max_attempts = 5; lockout = 300 * 1_000_000 }

pub record Clock : Type 0 where
  pub instant : ℕ
  pub unix : ℕ

pub record PairingState : Type 0 where
  pub pin : ℕ
  pub attempts : ℕ
  pub limits : PairingLimits
  pub lockout_until : Option ℕ
  pub paired : Bool
  pub issued_at : ℕ
  pub lifetime : ℕ

-- The pairing state and the record on disk.
pub record World : Type 0 where
  pub state : PairingState
  pub disk : ℕ

pub data PairingError : Type 0 where
  wrong_pin : ℕ → PairingError
  locked_out : PairingError

abbrev pub Answer : Type 0
Answer = Result {0, 0} PairingError Unit

unfoldable pub generate_pin : ℕ → ℕ
generate_pin random = random % 1_000_000

abbrev u64_saturate : ℕ → ℕ
u64_saturate n = min n (2 ^ 64 - 1)

-- The start of the program: what is left of a lockout on disk is taken up, a stale record removed.
unfoldable pub with_limits : PairingLimits → Clock → ℕ → ℕ → World
unfolding generate_pin
with_limits limits now random disk =
    let resumed = ltb now.unix disk in
    record {
      state = record {
        pin = generate_pin random;
        attempts = 0;
        limits = limits;
        lockout_until = if resumed then some (now.instant + (disk - now.unix)) else none;
        paired = false;
        issued_at = now.instant;
        lifetime = 300 * 1_000_000;
      };
      disk = if resumed then disk else 0;
    }

unfoldable pub expires_in : Clock → PairingState → ℕ
expires_in now s = s.lifetime - (now.instant - s.issued_at)

unfoldable pub rotate_pin : Clock → ℕ → PairingState → PairingState
unfolding generate_pin
rotate_pin now random s = record s {
  pin = generate_pin random;
  attempts = 0;
  issued_at = now.instant;
}

unfoldable pub rotate_if_expired : Clock → ℕ → PairingState → PairingState × Bool
unfolding expires_in rotate_pin
rotate_if_expired now random s =
    if ltb 0 (expires_in now s) then (s, false) else (rotate_pin now random s, true)

unfoldable pub rearm_for_reconnect : Clock → ℕ → PairingState → PairingState
rearm_for_reconnect now window s = record s {
  paired = false;
  issued_at = now.instant;
  lifetime = window;
}

unfoldable pub is_before : ℕ → Option ℕ → Bool
is_before now none = false
is_before now (some until) = ltb now until

unfoldable pub is_locked : Clock → PairingState → Bool
unfolding is_before
is_locked now s = is_before now.instant s.lockout_until

unfoldable pub pin_matches : ℕ → PairingState → Bool
pin_matches submitted s = bit_xor submitted s.pin == 0

unfoldable pub accept_pin : World → World
accept_pin w = record {
  state = record w.state { paired = true; attempts = 0; lockout_until = none };
  disk = 0;
}

-- The wrong PIN that reaches the limit.
unfoldable pub lock_out : Clock → ℕ → World → World
unfolding rotate_pin
lock_out now random w = record {
  state =
      rotate_pin now random
        (record w.state { lockout_until = some (now.instant + w.state.limits.lockout) });
  disk = u64_saturate (now.unix + w.state.limits.lockout % 2 ^ 64);
}

-- A wrong PIN: it counts, up to 255.
unfoldable pub refuse_pin : Clock → ℕ → World → World × Answer
unfolding lock_out
refuse_pin now random w =
    let attempts = min (w.state.attempts + 1) 255 in
    let counted : World = record w { state = record w.state { attempts = attempts } } in
    if leb w.state.limits.max_attempts attempts
    then (lock_out now random counted, err locked_out)
    else (counted, err (wrong_pin (w.state.limits.max_attempts - attempts)))

unfoldable pub verify : Clock → ℕ → ℕ → World → World × Answer
unfolding is_locked accept_pin refuse_pin pin_matches
verify now random submitted w =
    if is_locked now w.state
    then (w, err locked_out)
    else (if pin_matches submitted w.state then (accept_pin w, ok tt) else refuse_pin now random w)

-- One submission: when it comes, the number behind a new PIN, and the PIN.
pub record Guess : Type 0 where
  pub at_time : Clock
  pub random : ℕ
  pub submitted : ℕ
