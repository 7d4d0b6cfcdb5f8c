-- ===== src/Fec/Codec.antt =====
-- What the program takes from elsewhere: the Reed-Solomon codec of the crate reed_solomon_erasure,
-- and two operations on single-precision floats.
use focus_vision_pcvr.Prelude.{
  ℕ, suc, ◌+◌, ◌≤◌, ◌<◌, ◌≡◌, Bool, true, false, Option, none, some, List, [], ◌∷◌, ◌++◌, map,
  length, replicate, All,
}

abbrev pub Shard : Type 0
Shard = List ℕ

-- An instance is determined by its counts of data and parity shards; `none` is the crate's error.
pub record ReedSolomon : Type 0 where
  -- `ReedSolomon::new` succeeds.
  pub new : ℕ → ℕ → Bool
  -- `encode`, which fills in the parity shards behind the data shards.
  pub encode : ℕ → ℕ → List Shard → Option (List Shard)
  -- `reconstruct`, which fills in every missing shard.
  pub reconstruct : ℕ → ℕ → List (Option Shard) → Option (List (Option Shard))

-- Floats are bit patterns.
pub record FloatOps : Type 0 where
  -- `(count as f32 * redundancy).ceil() as usize`
  pub mul_ceil : ℕ → ℕ → ℕ
  -- `(a - b).abs() > f32::EPSILON`
  pub differs : ℕ → ℕ → Bool

-- The shards that arrived, by a mask over a code word.
abbrev pub arrived : List Bool → List Shard → List (Option Shard)
arrived [] cw = []
arrived (b ∷ mask) [] = []
arrived (true ∷ mask) (s ∷ cw) = some s ∷ arrived mask cw
arrived (false ∷ mask) (s ∷ cw) = none ∷ arrived mask cw

abbrev pub count_true : List Bool → ℕ
count_true [] = 0
count_true (true ∷ bs) = suc (count_true bs)
count_true (false ∷ bs) = count_true bs

abbrev pub HasLength : ℕ → Shard → Type 0
HasLength n s = length s ≡ n

-- Any `d` shards of a code word of `d + p` give back all of it.
abbrev pub Recovers : ReedSolomon → ℕ → ℕ → List Shard → Type 0
Recovers rs d p cw =
    (mask : List Bool)
    → length mask ≡ d + p
    → d ≤ count_true mask
    → rs.reconstruct d p (arrived mask cw) ≡ some (map some cw)

-- The code is systematic: encoding leaves the data shards alone and gives `p` parity shards of the
-- same length, and the code word can be recovered.
abbrev pub IsErasureCode : ReedSolomon → ℕ → ℕ → Type 0
IsErasureCode rs d p =
    (shards : List Shard) (n : ℕ)
    → length shards ≡ d
    → All (HasLength n) shards
    → 0 < n
    → (parity : List Shard) × (rs.encode d p (shards ++ replicate p (replicate n 0))
        ≡ some (shards ++ parity))
      × (length parity ≡ p)
      × All (HasLength n) parity
      × Recovers rs d p (shards ++ parity)

-- `ReedSolomon::new` accepts every pair of counts that one code word can hold.
abbrev pub AcceptsCounts : ReedSolomon → Type 0
AcceptsCounts rs = (d p : ℕ) → 0 < d → 0 < p → d + p ≤ 256 → rs.new d p ≡ true

-- More data shards never get fewer parity shards: rounding is monotone.
abbrev pub IsMonotone : FloatOps → Type 0
IsMonotone fl = (a b r : ℕ) → a ≤ b → fl.mul_ceil a r ≤ fl.mul_ceil b r
