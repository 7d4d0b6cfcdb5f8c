-- ===== src/Control/Pairing/Accepted.antt =====
-- Which PIN is accepted: the comparison by exclusive or is equality.
use Prim.Native.Nat.{digits, differ, bit_xor-bitwise}
use focus_vision_pcvr.Prelude.{
  ℕ, zero, suc, ◌+◌, ◌-◌, ◌/◌, ◌%◌, ◌≤◌, ◌≡◌, ◌↔◌, refl, ap, sym, ◌∙◌, Bool, true, false, ==_iff,
  bit_xor, arith, if◌then◌else◌, ok, err, Bool-cases, inl, inr, leb, min,
}
use focus_vision_pcvr.Control.Pairing.{
  Clock, World, Answer, PairingError, locked_out, wrong_pin, verify, is_locked, pin_matches,
  accept_pin, refuse_pin,
}

differ-zero : (x y : ℕ) → differ x y ≡ 0 → x ≡ y
differ-zero zero y h = sym h
differ-zero (suc x) zero h = h
differ-zero (suc x) (suc y) h = ap suc (differ-zero x y h)

differ_refl : (x : ℕ) → differ x x ≡ 0
differ_refl zero = refl
differ_refl (suc x) = differ_refl x

digits-zero : (n a b : ℕ) → a ≤ n → digits (λ c. c) differ n a b ≡ 0 → a ≡ b
digits-zero zero a b h e = omega (arith, e)
digits-zero (suc n) zero b h e = sym e
digits-zero (suc n) (suc a) b h e =
    let high = digits-zero n (suc a / 2) (b / 2) (omega arith) (omega (arith, e)) in
    let low = differ-zero (suc a % 2) (b % 2) (omega (arith, e)) in omega (arith, high, low)

digits_self : (n a : ℕ) → a ≤ n → digits (λ c. c) differ n a a ≡ 0
digits_self zero a h = omega arith
digits_self (suc n) zero h = refl
digits_self (suc n) (suc a) h =
    omega (arith, digits_self n (suc a / 2) (omega arith), differ_refl (suc a % 2))

bit_xor-zero : (a b : ℕ) → bit_xor a b ≡ 0 → a ≡ b
bit_xor-zero a b h = digits-zero a a b (omega arith) (sym (bit_xor-bitwise a b) ∙ h)

bit_xor_self : (a : ℕ) → bit_xor a a ≡ 0
bit_xor_self a = bit_xor-bitwise a a ∙ digits_self a a (omega arith)

pin_matches_iff :
    (submitted : ℕ) (w : World) → (pin_matches submitted w.state ≡ true) ↔ (submitted ≡ w.state.pin)
unfolding pin_matches
pin_matches_iff submitted w = (
  λ h. bit_xor-zero submitted w.state.pin ((==_iff (bit_xor submitted w.state.pin) 0).0 h),
  λ e.
      (==_iff (bit_xor submitted w.state.pin) 0).1
        (ap (λ p. bit_xor p w.state.pin) e ∙ bit_xor_self w.state.pin),
)

-- Which of the three ends of `verify` accepts.
conditions :
    (locked right : Bool) (w w' : World) (refused : World × Answer)
    → (e : PairingError) × (refused.1 ≡ err e)
    → (if locked then (w, err locked_out) else (if right then (w', ok tt) else refused)).1 ≡ ok tt
    → (locked ≡ false) × (right ≡ true)
conditions true right w w' refused r h = absurd (ground (arith, h))
conditions false true w w' refused r h = (refl, refl)
conditions false false w w' refused (e, r) h = absurd (ground (arith, h, r))

-- A wrong PIN is never accepted.
refuse_pin-err :
    (now : Clock) (random : ℕ) (w : World)
    → (e : PairingError) × ((refuse_pin now random w).1 ≡ err e)
unfolding refuse_pin
refuse_pin-err now random w =
    elim (Bool-cases (leb w.state.limits.max_attempts (min (w.state.attempts + 1) 255))) [
      | inl last ↦ (locked_out, rw last refl)
      | inr more ↦
          (wrong_pin (w.state.limits.max_attempts - min (w.state.attempts + 1) 255), rw more refl)
    ]

verify-ok_conditions :
    (now : Clock) (random submitted : ℕ) (w : World)
    → (verify now random submitted w).1 ≡ ok tt
    → (is_locked now w.state ≡ false) × (pin_matches submitted w.state ≡ true)
unfolding verify
verify-ok_conditions now random submitted w h =
    conditions (is_locked now w.state) (pin_matches submitted w.state) w (accept_pin w)
      (refuse_pin now random w) (refuse_pin-err now random w) h

verify-ok_holds :
    (now : Clock) (random submitted : ℕ) (w : World)
    → is_locked now w.state ≡ false
    → pin_matches submitted w.state ≡ true
    → (verify now random submitted w).1 ≡ ok tt
unfolding verify
verify-ok_holds now random submitted w unlocked right = rw (unlocked, right) refl

-- `verify` accepts a PIN exactly when pairing is not locked and the PIN is the current one.
pub verify-accepts :
    (now : Clock) (random submitted : ℕ) (w : World)
    → ((verify now random submitted w).1 ≡ ok tt)
      ↔ ((is_locked now w.state ≡ false) × (submitted ≡ w.state.pin))
verify-accepts now random submitted w =
    let matches = pin_matches_iff submitted w in
    (
      λ h. let c = verify-ok_conditions now random submitted w h in (c.0, matches.0 c.1),
      λ h. verify-ok_holds now random submitted w h.0 (matches.1 h.1),
    )
