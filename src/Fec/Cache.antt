-- ===== src/Fec/Cache.antt =====
-- The codec that `FecEncoder` keeps from frame to frame.
use focus_vision_pcvr.Prelude.{
  ℕ, ◌≡◌, refl, ◌⊎◌, inl, true, false, none, some, List, [], ◌∷◌, arith, length, Bool-cases,
}
use focus_vision_pcvr.Fec.Codec.{Shard, ReedSolomon, FloatOps}
use focus_vision_pcvr.Fec.Encoder.{FecEncoder, new, parity_for, set_redundancy, prepare, encode}

-- The cached codec is one that could be made, for the counts beside it.
abbrev pub IsCached : ReedSolomon → FecEncoder → Type 0
IsCached rs e =
    (e.cached_rs ≡ none)
    ⊎ ((e.cached_rs ≡ some (e.cached_data_count, e.cached_parity_count))
        × (rs.new e.cached_data_count e.cached_parity_count ≡ true))

pub new-IsCached : (rs : ReedSolomon) (redundancy : ℕ) → IsCached rs (new redundancy)
unfolding new
new-IsCached rs redundancy = inl refl

pub set_redundancy-IsCached :
    (fl : FloatOps) (rs : ReedSolomon) (e : FecEncoder) (redundancy : ℕ)
    → IsCached rs e
    → IsCached rs (set_redundancy fl e redundancy)
unfolding set_redundancy
set_redundancy-IsCached fl rs e redundancy v = ground arith

-- The encoder with a codec for these counts.
abbrev pub caching : FecEncoder → ℕ → ℕ → FecEncoder
caching e d p = record e { cached_rs = some (d, p); cached_data_count = d; cached_parity_count = p }

module _ (fl : FloatOps) (rs : ReedSolomon) (e : FecEncoder) (d p : ℕ) where
  -- `prepare` gives a codec for the counts that it is asked for, where one can be made.
  pub prepare_made : IsCached rs e → rs.new d p ≡ true → prepare fl rs e d p ≡ some (caching e d p)
  unfolding prepare
  prepare_made v made = ground arith

  pub prepare_refused : IsCached rs e → rs.new d p ≡ false → prepare fl rs e d p ≡ none
  unfolding prepare
  prepare_refused v made = ground arith

module _ (fl : FloatOps) (rs : ReedSolomon) where
  -- With such a codec, the answer is that of an encoder with nothing cached, and the codec stays such.
  pub encode-IsCached :
      (e : FecEncoder) (shards : List Shard)
      → IsCached rs e
      → ((encode fl rs e shards).1 ≡ (encode fl rs (record e { cached_rs = none }) shards).1)
        × IsCached rs (encode fl rs e shards).0
  unfolding encode
  encode-IsCached e shards v =
      ground (arith, Bool-cases (rs.new (length shards) (parity_for fl e (length shards))))

-- What is asked of an encoder.
pub data Use : Type 0 where
  frame : List Shard → Use
  redundancy : ℕ → Use

module _ (fl : FloatOps) (rs : ReedSolomon) where
  unfoldable pub use_all : List Use → FecEncoder → FecEncoder
  use_all [] e = e
  use_all (frame shards ∷ uses) e = use_all uses (encode fl rs e shards).0
  use_all (redundancy r ∷ uses) e = use_all uses (set_redundancy fl e r)

  use_all-IsCached :
      (uses : List Use) (e : FecEncoder) → IsCached rs e → IsCached rs (use_all uses e)
  unfolding use_all
  use_all-IsCached [] e v = v
  use_all-IsCached (frame shards ∷ uses) e v =
      use_all-IsCached uses (encode fl rs e shards).0 (encode-IsCached fl rs e shards v).1
  use_all-IsCached (redundancy r ∷ uses) e v =
      use_all-IsCached uses (set_redundancy fl e r) (set_redundancy-IsCached fl rs e r v)

  -- Whatever a new encoder was used for, frames encoded with success or not and its redundancy set in
  -- whatever order, its answer to the next frame is the one that it would give with nothing cached.
  pub encode-use_all :
      (uses : List Use) (initial : ℕ) (shards : List Shard)
      → (encode fl rs (use_all uses (new initial)) shards).1
        ≡ (encode fl rs (record (use_all uses (new initial)) { cached_rs = none }) shards).1
  encode-use_all uses initial shards =
      (encode-IsCached fl rs (use_all uses (new initial)) shards
        (use_all-IsCached uses (new initial) (new-IsCached rs initial))).0
