-- ===== src/Fec/Copies.antt =====
-- A concrete codec, for tests and witnesses: with one data shard, every parity shard is a copy of it.
use focus_vision_pcvr.Prelude.{
  ℕ, zero, suc, ◌+◌, ◌/◌, ◌≤◌, ◌≡◌, refl, sym, ap, ◌∙◌, Bool, true, false, ◌&&◌, Option, none, some,
  List, [], ◌∷◌, ◌++◌, map, arith, length, length-replicate, take, replicate, get_or, All, ltb, leb,
}
use focus_vision_pcvr.Fec.Masks.{length-arrived}
use focus_vision_pcvr.Fec.Codec.{
  Shard, ReedSolomon, FloatOps, arrived, count_true, HasLength, Recovers, IsErasureCode,
  AcceptsCounts, IsMonotone,
}

-- The first shard that is there.
abbrev first_there : List (Option Shard) → Option Shard
first_there [] = none
first_there (none ∷ shards) = first_there shards
first_there (some s ∷ shards) = some s

abbrev fill : ℕ → Option Shard → Option (List (Option Shard))
fill n none = none
fill n (some s) = some (replicate n (some s))

abbrev pub copies : ReedSolomon
copies = record {
  new = λ d p. ltb 0 d && ltb 0 p && leb (d + p) 256;
  encode = λ d p shards. some (take d shards ++ replicate p (get_or shards 0 []));
  reconstruct = λ d p shards. fill (length shards) (first_there shards);
}

-- One parity shard for every five data shards.
abbrev pub fifth : FloatOps
fifth = record { mul_ceil = λ n r. (n + 4) / 5; differs = λ a b. ltb a b }

pub copies-AcceptsCounts : AcceptsCounts copies
copies-AcceptsCounts d p hd hp h = ground arith

pub fifth-IsMonotone : IsMonotone fifth
fifth-IsMonotone a b r h = omega arith

map-some-replicate : (n : ℕ) (s : Shard) → map some (replicate n s) ≡ replicate n (some s)
map-some-replicate zero s = refl
map-some-replicate (suc n) s = ap (◌∷◌ (some s)) (map-some-replicate n s)

fill-arrived :
    (mask : List Bool) (n m : ℕ) (s : Shard)
    → length mask ≡ n
    → 1 ≤ count_true mask
    → fill m (first_there (arrived mask (replicate n s))) ≡ some (replicate m (some s))
fill-arrived [] n m s h c = absurd (omega arith)
fill-arrived (b ∷ mask) zero m s h c = absurd (omega arith)
fill-arrived (true ∷ mask) (suc n) m s h c = refl
fill-arrived (false ∷ mask) (suc n) m s h c = fill-arrived mask n m s (omega arith) c

All-replicate : (n m : ℕ) (s : Shard) → length s ≡ m → All (HasLength m) (replicate n s)
All-replicate zero m s h = tt
All-replicate (suc n) m s h = (h, All-replicate n m s h)

recovers_copies : (p : ℕ) (s : Shard) → Recovers copies 1 p (replicate (suc p) s)
recovers_copies p s mask hm enough =
    let len : length mask ≡ suc p = omega arith in
    rw
      (
        length-arrived mask (replicate (suc p) s) (len ∙ sym (length-replicate (suc p) s)),
        length-replicate (suc p) s,
        map-some-replicate (suc p) s,
      )
      (fill-arrived mask (suc p) (suc p) s len enough)

pub copies-IsErasureCode : (p : ℕ) → IsErasureCode copies 1 p
copies-IsErasureCode p [] n h even hn = absurd (omega arith)
copies-IsErasureCode p (s ∷ []) n h even hn =
    (replicate p s, refl, length-replicate p s, All-replicate p n s even.0, recovers_copies p s)
copies-IsErasureCode p (s ∷ t ∷ shards) n h even hn = absurd (omega arith)
