-- ===== src/Control/Pairing/Lockout.antt =====
-- What the lockout of pairing.rs guarantees against someone who guesses PINs.
use focus_vision_pcvr.Prelude.{
  ℕ, suc, ◌+◌, ◌-◌, ◌^◌, ◌≤◌, ◌<◌, ◌≡◌, refl, min, Bool, true, false, none, some, List, [], ◌∷◌,
  ◌++◌, All, arith, length, lt→ltb, le→not_ltb, Option, ok, err,
}
use focus_vision_pcvr.Control.Pairing.{
  PairingLimits, Clock, PairingState, World, locked_out, wrong_pin, Answer, Guess, is_before,
  is_locked, verify, refuse_pin, lock_out, pin_matches, rotate_pin, with_limits,
}

-- The answers to a sequence of guesses, and the world after them.
unfoldable pub verify_all : List Guess → World → World × List (Answer)
verify_all [] w = (w, [])
verify_all (g ∷ guesses) w =
    let (w', answer) = verify g.at_time g.random g.submitted w in
    let (w'', answers) = verify_all guesses w' in (w'', answer ∷ answers)

abbrev pub Refused : Answer → Type 0
Refused r = r ≡ err locked_out

is_locked_of :
    (now : Clock) (s : PairingState) (until : ℕ)
    → s.lockout_until ≡ some until
    → now.instant < until
    → is_locked now s ≡ true
unfolding is_locked
is_locked_of now s until locked h = rw (locked, lt→ltb now.instant until h) refl

verify-locked :
    (g : Guess) (w : World)
    → is_locked g.at_time w.state ≡ true
    → verify g.at_time g.random g.submitted w ≡ (w, err locked_out)
unfolding verify
verify-locked g w locked = rw locked refl

-- While a lockout lasts, every guess is refused, the right PIN too, and nothing changes: no guess of
-- a sequence that comes before its end is checked or counted.
pub locked_refuses_all :
    (guesses : List Guess) (w : World) (until : ℕ)
    → w.state.lockout_until ≡ some until
    → All (λ g. g.at_time.instant < until) guesses
    → ((verify_all guesses w).0 ≡ w) × All Refused (verify_all guesses w).1
unfolding verify_all
locked_refuses_all [] w until locked h = (refl, tt)
locked_refuses_all (g ∷ guesses) w until locked h =
    let rest = locked_refuses_all guesses w until locked h.1 in
    rw (verify-locked g w (is_locked_of g.at_time w.state until locked h.0))
      (rest.0, (refl, rest.1))

-- No lockout, or one that is over by then.
abbrev pub IsOver : ℕ → Option ℕ → Type 0
IsOver now none = Unit
IsOver now (some until) = until ≤ now

abbrev pub IsUnlocked : World → Guess → Type 0
IsUnlocked w g = IsOver g.at_time.instant w.state.lockout_until

-- Guesses are left, and the limit fits the counter of 8 bits.
abbrev pub IsOpen : World → Type 0
IsOpen w = (w.state.attempts < w.state.limits.max_attempts) × (w.state.limits.max_attempts ≤ 255)

abbrev pub IsWrong : World → Guess → Type 0
IsWrong w g = pin_matches g.submitted w.state ≡ false

over-is_before : (now : ℕ) (lockout : Option ℕ) → IsOver now lockout → is_before now lockout ≡ false
unfolding is_before
over-is_before now none h = refl
over-is_before now (some until) h = le→not_ltb now until h

unlocked-is_locked : (g : Guess) (w : World) → IsUnlocked w g → is_locked g.at_time w.state ≡ false
unfolding is_locked
unlocked-is_locked g w h = over-is_before g.at_time.instant w.state.lockout_until h

module _ (g : Guess) (w : World) where
  -- A wrong guess below the limit is counted.
  verify-wrong_more :
      IsOpen w
      → IsUnlocked w g
      → IsWrong w g
      → w.state.attempts + 1 < w.state.limits.max_attempts
      → verify g.at_time g.random g.submitted w ≡ (
        record w { state = record w.state { attempts = w.state.attempts + 1 } },
        err (wrong_pin (w.state.limits.max_attempts - (w.state.attempts + 1))),
      )
  unfolding verify refuse_pin
  verify-wrong_more fresh unlocked wrong h =
      let counted : min (w.state.attempts + 1) 255 ≡ w.state.attempts + 1 =
        omega (arith, h, fresh) in
      rw (unlocked-is_locked g w unlocked, wrong, counted) (ground (arith, h))

  verify-wrong_last :
      IsOpen w
      → IsUnlocked w g
      → IsWrong w g
      → w.state.attempts + 1 ≡ w.state.limits.max_attempts
      → ((verify g.at_time g.random g.submitted w).1 ≡ err locked_out)
        × ((verify g.at_time g.random g.submitted w).0.state.lockout_until
            ≡ some (g.at_time.instant + w.state.limits.lockout))
  unfolding verify refuse_pin lock_out rotate_pin
  verify-wrong_last fresh unlocked wrong h =
      let counted : min (w.state.attempts + 1) 255 ≡ w.state.limits.max_attempts =
        omega (arith, h, fresh) in
      rw (unlocked-is_locked g w unlocked, wrong, counted) (ground arith)

abbrev pub is_ok : Answer → Bool
is_ok (ok u) = true
is_ok (err e) = false

Refused-not_ok : (answers : List Answer) → All Refused answers → All (λ r. is_ok r ≡ false) answers
Refused-not_ok [] h = tt
Refused-not_ok (r ∷ answers) h = (rw (h.0) refl, Refused-not_ok answers h.1)

-- Guessing is bounded. Wrong guesses, as many as the limit (of 255 at most) leaves, that come while no
-- lockout lasts, be there none or an earlier one that is over, the last of them at an instant t, and
-- then any guesses before t + lockout, the right PIN among them or not: no guess of the whole
-- sequence is accepted.
pub guesses_bounded :
    (before : List Guess) (g : Guess) (after : List Guess) (w : World)
    → IsOpen w
    → All (IsUnlocked w) before
    → IsUnlocked w g
    → All (IsWrong w) before
    → IsWrong w g
    → w.state.attempts + suc (length before) ≡ w.state.limits.max_attempts
    → All (λ a. a.at_time.instant < g.at_time.instant + w.state.limits.lockout) after
    → All (λ r. is_ok r ≡ false) (verify_all (before ++ (g ∷ after)) w).1
unfolding verify_all pin_matches
guesses_bounded [] g after w fresh opens unlocked wrongs wrong h soon =
    let last = verify-wrong_last g w fresh unlocked wrong (omega (arith, h)) in
    (
      rw (last.0) refl,
      Refused-not_ok (verify_all after (verify g.at_time g.random g.submitted w).0).1
          (locked_refuses_all after (verify g.at_time g.random g.submitted w).0
            (g.at_time.instant + w.state.limits.lockout) last.1 soon).1,
    )
guesses_bounded (b ∷ before) g after w fresh opens unlocked wrongs wrong h soon =
    rw (verify-wrong_more b w fresh opens.0 wrongs.0 (omega (arith, h))) (
      refl,
      guesses_bounded before g after
          (record w { state = record w.state { attempts = w.state.attempts + 1 } })
          (omega (arith, h), fresh.1) opens.1 unlocked wrongs.1 wrong (omega (arith, h)) soon,
    )

-- A lockout outlives the program: the wrong guess that uses up the limit (of 255 at most) while no
-- lockout lasts, be there none or an earlier one that is over, writes the end of the lockout to disk,
-- and a restart before that end, with whatever limits, is locked for the time that is left. The end,
-- in microseconds since 1970, is below 2^64.
pub lockout-restart :
    (g : Guess) (w : World) (limits : PairingLimits) (later : Clock) (random : ℕ)
    → IsOpen w
    → IsUnlocked w g
    → IsWrong w g
    → w.state.attempts + 1 ≡ w.state.limits.max_attempts
    → g.at_time.unix + w.state.limits.lockout < 2 ^ 64
    → later.unix < g.at_time.unix + w.state.limits.lockout
    → (with_limits limits later random
        (verify g.at_time g.random g.submitted w).0.disk).state.lockout_until
      ≡ some (later.instant + (g.at_time.unix + w.state.limits.lockout - later.unix))
unfolding verify refuse_pin lock_out with_limits
lockout-restart g w limits later random fresh unlocked wrong h fits soon =
    let counted : min (w.state.attempts + 1) 255 ≡ w.state.limits.max_attempts =
      omega (arith, h, fresh) in
    rw (unlocked-is_locked g w unlocked, wrong, counted) (ground arith)
