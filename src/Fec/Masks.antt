-- ===== src/Fec/Masks.antt =====
-- Code words with some shards missing: what `arrived` does under the list operations of the receiver.
use focus_vision_pcvr.Prelude.{
  ℕ, zero, suc, ◌+◌, ◌<◌, ◌≡◌, refl, ap, Bool, true, false, none, some, List, [], ◌∷◌, map, arith,
  length, take, set, get_or, replicate, all_some, present, if◌then◌else◌,
}
use focus_vision_pcvr.Fec.Codec.{Shard, arrived, count_true}

pub get_or-arrived :
    (mask : List Bool) (cw : List Shard) (i : ℕ)
    → length mask ≡ length cw
    → get_or (arrived mask cw) i none
      ≡ (if get_or mask i false then some (get_or cw i []) else none)
get_or-arrived [] [] i h = refl
get_or-arrived [] (s ∷ cw) i h = refl
get_or-arrived (b ∷ mask) [] i h = absurd (omega arith)
get_or-arrived (true ∷ mask) (s ∷ cw) zero h = refl
get_or-arrived (false ∷ mask) (s ∷ cw) zero h = refl
get_or-arrived (true ∷ mask) (s ∷ cw) (suc i) h = get_or-arrived mask cw i (omega arith)
get_or-arrived (false ∷ mask) (s ∷ cw) (suc i) h = get_or-arrived mask cw i (omega arith)

pub set-arrived :
    (mask : List Bool) (cw : List Shard) (i : ℕ)
    → set (arrived mask cw) i (some (get_or cw i [])) ≡ arrived (set mask i true) cw
set-arrived [] cw i = refl
set-arrived (b ∷ mask) [] zero = refl
set-arrived (b ∷ mask) [] (suc i) = refl
set-arrived (true ∷ mask) (s ∷ cw) zero = refl
set-arrived (false ∷ mask) (s ∷ cw) zero = refl
set-arrived (true ∷ mask) (s ∷ cw) (suc i) = ap (◌∷◌ (some s)) (set-arrived mask cw i)
set-arrived (false ∷ mask) (s ∷ cw) (suc i) = ap (◌∷◌ none) (set-arrived mask cw i)

pub count_true-set :
    (mask : List Bool) (i : ℕ)
    → i < length mask
    → get_or mask i false ≡ false
    → count_true (set mask i true) ≡ count_true mask + 1
count_true-set [] i h e = absurd (omega arith)
count_true-set (true ∷ mask) zero h e = cc
count_true-set (false ∷ mask) zero h e = omega arith
count_true-set (true ∷ mask) (suc i) h e = omega (arith, count_true-set mask i (omega arith) e)
count_true-set (false ∷ mask) (suc i) h e = count_true-set mask i (omega arith) e

-- A place that is taken already stays as it is.
pub set_taken : (mask : List Bool) (i : ℕ) → get_or mask i false ≡ true → set mask i true ≡ mask
set_taken [] i e = refl
set_taken (true ∷ mask) zero e = refl
set_taken (false ∷ mask) zero e = cc
set_taken (b ∷ mask) (suc i) e = ap (◌∷◌ b) (set_taken mask i e)

pub arrived-none :
    (cw : List Shard) → arrived (replicate (length cw) false) cw ≡ replicate (length cw) none
arrived-none [] = refl
arrived-none (s ∷ cw) = ap (◌∷◌ none) (arrived-none cw)

pub count_true_none : (n : ℕ) → count_true (replicate n false) ≡ 0
count_true_none zero = refl
count_true_none (suc n) = count_true_none n

pub length-arrived :
    (mask : List Bool) (cw : List Shard)
    → length mask ≡ length cw
    → length (arrived mask cw) ≡ length cw
length-arrived [] [] h = refl
length-arrived [] (s ∷ cw) h = absurd (omega arith)
length-arrived (b ∷ mask) [] h = absurd (omega arith)
length-arrived (true ∷ mask) (s ∷ cw) h = ap suc (length-arrived mask cw (omega arith))
length-arrived (false ∷ mask) (s ∷ cw) h = ap suc (length-arrived mask cw (omega arith))

-- Where the first `d` places are filled, they hold the data shards.
pub present-take-arrived :
    (d : ℕ) (mask : List Bool) (cw : List Shard)
    → length mask ≡ length cw
    → all_some (take d (arrived mask cw)) ≡ true
    → present (take d (arrived mask cw)) ≡ take d cw
present-take-arrived zero mask cw h e = refl
present-take-arrived (suc d) [] [] h e = refl
present-take-arrived (suc d) [] (s ∷ cw) h e = absurd (omega arith)
present-take-arrived (suc d) (b ∷ mask) [] h e = absurd (omega arith)
present-take-arrived (suc d) (true ∷ mask) (s ∷ cw) h e =
    ap (◌∷◌ s) (present-take-arrived d mask cw (omega arith) e)
present-take-arrived (suc d) (false ∷ mask) (s ∷ cw) h e = cc

pub present-take-map : (d : ℕ) (cw : List Shard) → present (take d (map some cw)) ≡ take d cw
present-take-map zero cw = refl
present-take-map (suc d) [] = refl
present-take-map (suc d) (s ∷ cw) = ap (◌∷◌ s) (present-take-map d cw)
