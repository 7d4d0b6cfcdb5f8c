-- ===== src/Prelude/Bits.antt =====
-- Masks as arithmetic. Each is a finite table, checked by evaluation.
use focus_vision_pcvr.Prelude.{
  ℕ, zero, suc, ◌%◌, ◌<◌, ◌≡◌, refl, Bool, true, ◌&&◌, arith, bit_and, ◌==◌, ==_iff,
}

unfoldable pub holds_below : ℕ → (ℕ → Bool) → Bool
holds_below zero p = true
holds_below (suc n) p = p n && holds_below n p

pub holds_below-lt : (n : ℕ) (p : ℕ → Bool) (i : ℕ) → i < n → holds_below n p ≡ true → p i ≡ true
unfolding holds_below
holds_below-lt zero p i lt h = absurd (omega arith)
holds_below-lt (suc n) p i lt h = ground (arith, holds_below-lt n p i)

module _ (f g : ℕ → ℕ) where
  pub eq_of_table : (n i : ℕ) → i < n → holds_below n (λ k. f k == g k) ≡ true → f i ≡ g i
  eq_of_table n i lt h = (==_iff (f i) (g i)).0 (holds_below-lt n (λ k. f k == g k) i lt h)

pub low_nibble : (x : ℕ) → x < 256 → bit_and x 0xf ≡ x % 16
unfolding holds_below
low_nibble x h = eq_of_table (λ k. bit_and k 0xf) (λ k. k % 16) 256 x h refl

pub low_two_bits : (x : ℕ) → x < 256 → bit_and x 0x3 ≡ x % 4
unfolding holds_below
low_two_bits x h = eq_of_table (λ k. bit_and k 0x3) (λ k. k % 4) 256 x h refl

pub low_bit : (x : ℕ) → x < 256 → bit_and x 0x1 ≡ x % 2
unfolding holds_below
low_bit x h = eq_of_table (λ k. bit_and k 0x1) (λ k. k % 2) 256 x h refl
