-- ===== src/Pipeline/Padding.antt =====
-- The data shards of a frame: its bytes, then zeros up to a whole number of shards.
use focus_vision_pcvr.Prelude.{
  ℕ, zero, suc, ◌+◌, ◌-◌, ◌*◌, ◌≤◌, ◌<◌, ◌≡◌, refl, List, [], ◌∷◌, ◌++◌, map, arith, length, take,
  drop, replicate, concat, All, length-append, length-replicate, length-take, length-drop,
  length-map, take_all, drop_all, take-append-drop, append-nil, append_assoc,
}
use native.Mathlib.Decide.{dec_le}
use focus_vision_pcvr.Prelude.Chunks.{chunks, chunks_fuel, chunks-IsPiece, IsPiece, length-chunks}
use focus_vision_pcvr.Fec.Codec.{HasLength}
use focus_vision_pcvr.Pipeline.Encode.{pad_shard, to_data_shards}

length-pad_shard : (c : List ℕ) → length c ≤ 1200 → length (pad_shard c) ≡ 1200
unfolding pad_shard
length-pad_shard c h = omega (
  arith,
  length-append c (replicate (1200 - length c) 0),
  length-replicate {A = ℕ} (1200 - length c) 0,
)

pads-HasLength :
    (cs : List (List ℕ)) → All (IsPiece 1200) cs → All (HasLength 1200) (map pad_shard cs)
pads-HasLength [] h = tt
pads-HasLength (c ∷ cs) h = (length-pad_shard c h.0.1, pads-HasLength cs h.1)

-- Every data shard has the size of a shard.
pub to_data_shards-HasLength : (bytes : List ℕ) → All (HasLength 1200) (to_data_shards bytes)
unfolding to_data_shards
to_data_shards-HasLength bytes =
    pads-HasLength (chunks 1200 bytes) (chunks-IsPiece 1200 bytes (omega arith))

pub length-to_data_shards :
    (bytes : List ℕ)
    → (length bytes ≤ length (to_data_shards bytes) * 1200)
      × (length (to_data_shards bytes) * 1200 < length bytes + 1200)
unfolding to_data_shards
length-to_data_shards bytes =
    rw (length-map (chunks 1200 bytes) pad_shard) (length-chunks 1200 bytes (omega arith))

-- The same for pieces of any size `n`.
abbrev pad : ℕ → List ℕ → List ℕ
pad n c = c ++ replicate (n - length c) 0

chunks_fuel-nil : (f n : ℕ) → chunks_fuel {A = ℕ} f n [] ≡ []
unfolding chunks_fuel
chunks_fuel-nil zero n = refl
chunks_fuel-nil (suc f) n = refl

-- A whole piece in front, and the last piece.
pads_step :
    (n k : ℕ) (ys rest : List ℕ)
    → n ≤ length ys
    → rest ≡ drop n ys ++ replicate (k * n - length (drop n ys)) 0
    → pad n (take n ys) ++ rest ≡ ys ++ replicate (suc k * n - length ys) 0
pads_step n k ys rest h e =
    let full : n - length (take n ys) ≡ 0 = omega (arith, length-take n ys) in
    let zeros : k * n - length (drop n ys) ≡ suc k * n - length ys =
      omega (arith, length-drop n ys) in
    rw (full, append-nil (take n ys), e, zeros, ← append_assoc, take-append-drop n ys)

pads_last :
    (f n : ℕ) (ys : List ℕ)
    → length ys < n
    → pad n (take n ys) ++ concat (map (pad n) (chunks_fuel f n (drop n ys)))
      ≡ ys ++ replicate (suc (length (chunks_fuel f n (drop n ys))) * n - length ys) 0
pads_last f n ys h =
    let one : suc zero * n - length ys ≡ n - length ys = omega arith in
    rw (drop_all n ys (omega arith), take_all n ys (omega arith), chunks_fuel-nil f n, one)
      (append-nil (pad n ys))

concat-pads_fuel :
    (f n : ℕ) (xs : List ℕ)
    → 0 < n
    → length xs ≤ f
    → concat (map (pad n) (chunks_fuel f n xs))
      ≡ xs ++ replicate (length (chunks_fuel f n xs) * n - length xs) 0
unfolding chunks_fuel
concat-pads_fuel zero n [] hn h = let e : 0 * n - 0 ≡ 0 = omega arith in rw e
concat-pads_fuel zero n (x ∷ xs) hn h = absurd (omega arith)
concat-pads_fuel (suc f) n [] hn h = let e : 0 * n - 0 ≡ 0 = omega arith in rw e
concat-pads_fuel (suc f) n (x ∷ xs) hn h = elim (dec_le n (length (x ∷ xs))) [
  | yes long ↦
      pads_step n (length (chunks_fuel f n (drop n (x ∷ xs)))) (x ∷ xs) _ long
        (concat-pads_fuel f n (drop n (x ∷ xs)) hn (omega (arith, length-drop n (x ∷ xs))))
  | no short ↦ pads_last f n (x ∷ xs) (omega arith)
]

-- The data shards, put together, are the frame and the zeros that fill up the last shard.
pub concat-to_data_shards :
    (bytes : List ℕ)
    → concat (to_data_shards bytes)
      ≡ bytes ++ replicate (length (to_data_shards bytes) * 1200 - length bytes) 0
unfolding to_data_shards chunks
concat-to_data_shards bytes =
    rw (length-map (chunks 1200 bytes) pad_shard)
      (concat-pads_fuel (length bytes) 1200 bytes (omega arith) (omega arith))
