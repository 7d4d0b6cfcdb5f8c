-- ===== src/Prelude/Options.antt =====
-- Lists of optional values, as the receivers keep their shards.
use Prim.Native.Nat.{ℕ, suc}
use mathlib.Core.Path.{◌≡◌, refl, ap}
use mathlib.Core.Bool.{Bool, true, false}
use mathlib.Core.List.{List, [], ◌∷◌, map}
use mathlib.Core.Option.{Option, none, some}
use native.Mathlib.Omega.{arith}

module _ {ℓ} {A : Type ℓ} where
  abbrev pub is_some : Option A → Bool
  is_some none = false
  is_some (some a) = true

  abbrev pub is_none : Option A → Bool
  is_none none = true
  is_none (some a) = false

  abbrev pub all_some : List (Option A) → Bool
  all_some [] = true
  all_some (none ∷ xs) = false
  all_some (some a ∷ xs) = all_some xs

  -- How many places are filled.
  abbrev pub count_some : List (Option A) → ℕ
  count_some [] = 0
  count_some (none ∷ xs) = count_some xs
  count_some (some a ∷ xs) = suc (count_some xs)

  -- What is there, in order.
  abbrev pub present : List (Option A) → List A
  present [] = []
  present (none ∷ xs) = present xs
  present (some a ∷ xs) = a ∷ present xs

module _ {ℓ} {A : Type ℓ} where
  pub present-map-some : (xs : List A) → present (map some xs) ≡ xs
  present-map-some [] = refl
  present-map-some (x ∷ xs) = ap (◌∷◌ x) (present-map-some xs)

  pub all_some-map-some : (xs : List A) → all_some (map some xs) ≡ true
  all_some-map-some [] = refl
  all_some-map-some (x ∷ xs) = all_some-map-some xs

infixl 5 ◌>>=◌
abbrev pub ◌>>=◌ {ℓ κ} : {A : Type ℓ} {B : Type κ} → Option A → (A → Option B) → Option B
none >>= f = none
some a >>= f = f a

-- A bind that gives something.
pub >>=-eq-some {ℓ κ} :
    {A : Type ℓ} {B : Type κ} (m : Option A) (f : A → Option B) (b : B)
    → (m >>= f) ≡ some b
    → (a : A) × (m ≡ some a) × (f a ≡ some b)
>>=-eq-some none f b h = absurd (ground (arith, h))
>>=-eq-some (some a) f b h = (a, refl, h)
