-- ===== src/Fec/CodeWord.antt =====
-- What `FecEncoder::encode` returns for even shards: the data shards, then the parity shards.
use focus_vision_pcvr.Prelude.{
  ℕ, zero, suc, ◌+◌, ◌≤◌, ◌<◌, ◌≡◌, refl, true, false, some, List, [], ◌∷◌, ◌++◌, arith, length,
  replicate, All, ok, ◌⊎◌, inl, inr,
}
use native.Mathlib.Decide.{dec_lt}
use focus_vision_pcvr.Fec.Codec.{Shard, ReedSolomon, FloatOps, HasLength, IsMonotone}
use focus_vision_pcvr.Fec.Encoder.{
  FecEncoder, parity_for, max_data_below, max_data_shards, encode, any_other_length, first_length,
}
use focus_vision_pcvr.Fec.Cache.{IsCached, caching}

any_other_length-even :
    (n : ℕ) (shards : List Shard) → All (HasLength n) shards → any_other_length n shards ≡ false
any_other_length-even n [] h = refl
any_other_length-even n (s ∷ shards) h = ground (arith, any_other_length-even n shards h.1)

first_length-even :
    (n : ℕ) (shards : List Shard)
    → 0 < length shards
    → All (HasLength n) shards
    → first_length shards ≡ n
first_length-even n [] lt h = absurd (omega arith)
first_length-even n (s ∷ shards) lt h = h.0

module _ (fl : FloatOps) (rs : ReedSolomon) (e : FecEncoder) where
  pub encode_even :
      (shards parity : List Shard) (n : ℕ)
      → 0 < length shards
      → All (HasLength n) shards
      → IsCached rs e
      → rs.new (length shards) (parity_for fl e (length shards)) ≡ true
      → rs.encode
          (length shards)
          (parity_for fl e (length shards))
          (shards ++ replicate (parity_for fl e (length shards)) (replicate n 0))
        ≡ some (shards ++ parity)
      → encode fl rs e shards
        ≡ (caching e (length shards) (parity_for fl e (length shards)), ok (shards ++ parity))
  unfolding encode
  encode_even shards parity n lt even v made coded =
      ground (arith, any_other_length-even n shards even, first_length-even n shards lt even)

-- Every count up to `max_data_shards` fits one code word with its parity.
module _ (fl : FloatOps) (e : FecEncoder) where
  pub parity_for_pos : (d : ℕ) → 0 < parity_for fl e d
  unfolding parity_for
  parity_for_pos d = omega arith

  parity_for_mono : (a b : ℕ) → IsMonotone fl → a ≤ b → parity_for fl e a ≤ parity_for fl e b
  unfolding parity_for
  parity_for_mono a b mono h = omega (arith, mono a b e.redundancy h)

  max_data_below-fits :
      (n : ℕ)
      → (max_data_below fl e n ≡ 0)
        ⊎ ((max_data_below fl e n < n)
            × (max_data_below fl e n + parity_for fl e (max_data_below fl e n) ≤ 256))
  unfolding max_data_below
  max_data_below-fits zero = inl refl
  max_data_below-fits (suc n) = ground (arith, max_data_below-fits n)

  max_data_below-largest :
      (n d : ℕ) → max_data_below fl e n < d → d < n → 256 < d + parity_for fl e d
  unfolding max_data_below
  max_data_below-largest zero d h lt = absurd (omega arith)
  max_data_below-largest (suc n) d h lt = elim (dec_lt d n) [
    | yes below ↦ ground (arith, max_data_below-largest n d)
    | no top ↦
        let same : d ≡ n = omega arith in
        let above : max_data_below fl e (suc n) < n = rw same at h in rw same (ground arith)
  ]

  pub fits_of_le :
      (d : ℕ) → IsMonotone fl → 0 < d → d ≤ max_data_shards fl e → d + parity_for fl e d ≤ 256
  unfolding max_data_shards
  fits_of_le d mono pos h = elim (max_data_below-fits 256) [
    | inl none_fits ↦ absurd (omega arith)
    | inr (below, fits) ↦ omega (arith, parity_for_mono d (max_data_below fl e 256) mono h)
  ]

  -- `max_data_shards` is the largest count below 256 that fits one code word with its parity, or 0
  -- where none does: it fits where it is not 0, it is below 256, and of the counts `d` below 256 every
  -- one above it is too large.
  pub max_data_shards_largest :
      (d : ℕ)
      → d < 256
      → ((max_data_shards fl e ≡ 0)
          ⊎ (max_data_shards fl e + parity_for fl e (max_data_shards fl e) ≤ 256))
        × (max_data_shards fl e < 256)
        × ((d ≤ max_data_shards fl e) ⊎ (256 < d + parity_for fl e d))
  unfolding max_data_shards
  max_data_shards_largest d lt = (
    ground (arith, max_data_below-fits 256),
    ground (arith, max_data_below-fits 256),
    elim (dec_lt (max_data_below fl e 256) d) [
      | yes above ↦ inr (max_data_below-largest 256 d above lt)
      | no below ↦ inl (omega arith)
    ],
  )
