-- ===== src/Fec/Encoder.antt =====
-- `FecEncoder` and `FecDecoder` of fec.rs.
use focus_vision_pcvr.Prelude.{
  is_none, ℕ, zero, suc, ◌+◌, ◌-◌, max, Bool, false, not, ◌||◌, Option, none, some, List, [], ◌∷◌,
  ◌++◌, length, take, replicate, present, Result, ok, err, leb, ◌==◌, if◌then◌else◌,
}
use focus_vision_pcvr.Prelude.F32
use focus_vision_pcvr.Fec.Codec.{Shard, ReedSolomon, FloatOps}

abbrev pub rs_max_total_shards : ℕ
rs_max_total_shards = 256

-- The text of a codec error is not modelled.
pub data FecError : Type 0 where
  empty_input unequal_shards insufficient_shards reed_solomon : FecError

-- `cached_rs` is the pair of counts that the cached codec was made for.
pub record FecEncoder : Type 0 where
  pub redundancy : ℕ
  pub cached_rs : Option (ℕ × ℕ)
  pub cached_data_count : ℕ
  pub cached_parity_count : ℕ

-- `x.clamp(0.0, 1.0)`
unfoldable pub clamp_unit : ℕ → ℕ
unfolding F32.lt
clamp_unit x = if F32.lt x 0 then 0 else if F32.lt 0x3f80_0000 x then 0x3f80_0000 else x

unfoldable pub new : ℕ → FecEncoder
unfolding clamp_unit
new redundancy = record {
  redundancy = clamp_unit redundancy;
  cached_rs = none;
  cached_data_count = 0;
  cached_parity_count = 0;
}

-- `data_shards[0].len()`
abbrev pub first_length : List Shard → ℕ
first_length [] = 0
first_length (s ∷ shards) = length s

abbrev pub any_other_length : ℕ → List Shard → Bool
any_other_length n [] = false
any_other_length n (s ∷ shards) = not (length s == n) || any_other_length n shards

abbrev rs_result : Option (List Shard) → Result FecError (List Shard)
rs_result none = err reed_solomon
rs_result (some shards) = ok shards

module _ (fl : FloatOps) where
  -- At least one parity shard.
  unfoldable pub parity_for : FecEncoder → ℕ → ℕ
  parity_for e data_count = max (fl.mul_ceil data_count e.redundancy) 1

  -- `(1..n).rev().find(fits).unwrap_or(0)`
  unfoldable pub max_data_below : FecEncoder → ℕ → ℕ
  max_data_below e zero = 0
  max_data_below e (suc n) =
      let rest = max_data_below e n in
      if n == 0 then 0 else (if leb (n + parity_for e n) rs_max_total_shards then n else rest)

  unfoldable pub max_data_shards : FecEncoder → ℕ
  unfolding max_data_below
  max_data_shards e = max_data_below e rs_max_total_shards

  -- A new value drops the cached codec.
  unfoldable pub set_redundancy : FecEncoder → ℕ → FecEncoder
  unfolding clamp_unit
  set_redundancy e redundancy =
      let new = clamp_unit redundancy in
      if fl.differs new e.redundancy then (record e { redundancy = new; cached_rs = none }) else e

  module _ (rs : ReedSolomon) where
    -- The codec to use: the cached one, or a new one for these counts. `none` where making it fails.
    unfoldable pub prepare : FecEncoder → ℕ → ℕ → Option FecEncoder
    prepare e data_count parity_count =
        if is_none e.cached_rs
          || not (e.cached_data_count == data_count)
          || not (e.cached_parity_count == parity_count)
        then (if rs.new data_count parity_count
            then some (record e {
              cached_rs = some (data_count, parity_count);
              cached_data_count = data_count;
              cached_parity_count = parity_count;
            })
            else none)
        else some e

    -- `rs.encode` of the cached codec.
    abbrev run_cached : Option (ℕ × ℕ) → List Shard → Option (List Shard)
    run_cached none shards = none
    run_cached (some (d, p)) shards = rs.encode d p shards

    abbrev encode_prepared :
        FecEncoder
        → Option FecEncoder
        → List Shard
        → ℕ
        → ℕ
        → FecEncoder × Result FecError (List Shard)
    encode_prepared e none data_shards parity_count shard_len = (e, err reed_solomon)
    encode_prepared e (some e') data_shards parity_count shard_len = (
      e',
      rs_result
          (run_cached e'.cached_rs (data_shards ++ replicate parity_count (replicate shard_len 0))),
    )

    unfoldable pub encode : FecEncoder → List Shard → FecEncoder × Result FecError (List Shard)
    unfolding prepare parity_for
    encode e data_shards =
        if length data_shards == 0
        then (e, err empty_input)
        else (let data_count = length data_shards in
            let parity_count = parity_for e data_count in
            let shard_len = first_length data_shards in
            if any_other_length shard_len data_shards
            then (e, err unequal_shards)
            else encode_prepared e (prepare e data_count parity_count) data_shards parity_count
                shard_len)

module _ (rs : ReedSolomon) where
  abbrev decoded : ℕ → Option (List (Option Shard)) → Result FecError (List Shard)
  decoded data_count none = err reed_solomon
  decoded data_count (some shards) = ok (present (take data_count shards))

  -- `expect("reconstructed")` cannot fail on what the codec gives: every place is filled.
  unfoldable pub decode : List (Option Shard) → ℕ → Result FecError (List Shard)
  decode shards data_count =
      if leb (length shards) data_count
      then err insufficient_shards
      else (if rs.new data_count (length shards - data_count)
          then decoded data_count (rs.reconstruct data_count (length shards - data_count) shards)
          else err reed_solomon)
