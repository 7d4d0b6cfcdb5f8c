-- ===== src/Prelude/Chunks.antt =====
-- `slice::chunks` of the standard library: a list cut into pieces of `n`, the last one shorter.
use focus_vision_pcvr.Prelude.{
  ℕ, zero, suc, ◌+◌, ◌*◌, ◌≤◌, ◌<◌, ◌≡◌, refl, ap, ◌∙◌, List, [], ◌∷◌, ◌++◌, arith, length, take,
  drop, concat, All, length-take, length-drop, take-append-drop,
}

multiple_below : (k n : ℕ) → k * n < n → k * n ≡ 0
multiple_below zero n h = omega arith
multiple_below (suc k) n h = absurd (omega arith)

module _ {ℓ} {A : Type ℓ} where
  -- Each round takes at least one element, so as many rounds as elements are enough.
  unfoldable pub chunks_fuel : ℕ → ℕ → List A → List (List A)
  chunks_fuel zero n xs = []
  chunks_fuel (suc f) n [] = []
  chunks_fuel (suc f) n (x ∷ xs) = take n (x ∷ xs) ∷ chunks_fuel f n (drop n (x ∷ xs))

  unfoldable pub chunks : ℕ → List A → List (List A)
  unfolding chunks_fuel
  chunks n xs = chunks_fuel (length xs) n xs

  concat-chunks_fuel :
      (f n : ℕ) (xs : List A) → 0 < n → length xs ≤ f → concat (chunks_fuel f n xs) ≡ xs
  unfolding chunks_fuel
  concat-chunks_fuel zero n [] hn h = refl
  concat-chunks_fuel zero n (x ∷ xs) hn h = absurd (omega arith)
  concat-chunks_fuel (suc f) n [] hn h = refl
  concat-chunks_fuel (suc f) n (x ∷ xs) hn h =
      ap (◌++◌ (take n (x ∷ xs)))
        (concat-chunks_fuel f n (drop n (x ∷ xs)) hn (omega (arith, length-drop n (x ∷ xs))))
      ∙ take-append-drop n (x ∷ xs)

  -- The pieces, put together again, are the list.
  pub concat-chunks : (n : ℕ) (xs : List A) → 0 < n → concat (chunks n xs) ≡ xs
  unfolding chunks
  concat-chunks n xs hn = concat-chunks_fuel (length xs) n xs hn (omega arith)

  pub length-chunks-pos : (n : ℕ) (xs : List A) → 0 < length xs → 0 < length (chunks n xs)
  unfolding chunks
  length-chunks-pos n [] h = absurd (omega arith)
  length-chunks-pos n (x ∷ xs) h = omega arith

  -- A piece that holds something and fits.
  abbrev pub IsPiece : ℕ → List A → Type 0
  IsPiece n c = (0 < length c) × (length c ≤ n)

  chunks_fuel-IsPiece : (f n : ℕ) (xs : List A) → 0 < n → All (IsPiece n) (chunks_fuel f n xs)
  unfolding chunks_fuel
  chunks_fuel-IsPiece zero n xs hn = tt
  chunks_fuel-IsPiece (suc f) n [] hn = tt
  chunks_fuel-IsPiece (suc f) n (x ∷ xs) hn = (
    (omega (arith, length-take n (x ∷ xs)), omega (arith, length-take n (x ∷ xs))),
    chunks_fuel-IsPiece f n (drop n (x ∷ xs)) hn,
  )

  pub chunks-IsPiece : (n : ℕ) (xs : List A) → 0 < n → All (IsPiece n) (chunks n xs)
  unfolding chunks
  chunks-IsPiece n xs hn = chunks_fuel-IsPiece (length xs) n xs hn

  length-chunks_fuel :
      (f n : ℕ) (xs : List A)
      → 0 < n
      → length xs ≤ f
      → (length xs ≤ length (chunks_fuel f n xs) * n)
        × (length (chunks_fuel f n xs) * n < length xs + n)
  unfolding chunks_fuel
  length-chunks_fuel zero n [] hn h = omega arith
  length-chunks_fuel zero n (x ∷ xs) hn h = absurd (omega arith)
  length-chunks_fuel (suc f) n [] hn h = omega arith
  length-chunks_fuel (suc f) n (x ∷ xs) hn h =
      let ih : (length (drop n (x ∷ xs)) ≤ length (chunks_fuel f n (drop n (x ∷ xs))) * n)
          × (length (chunks_fuel f n (drop n (x ∷ xs))) * n < length (drop n (x ∷ xs)) + n) =
        length-chunks_fuel f n (drop n (x ∷ xs)) hn (omega (arith, length-drop n (x ∷ xs))) in
      grind (
        arith,
        ih,
        length-drop n (x ∷ xs),
        multiple_below (length (chunks_fuel f n (drop n (x ∷ xs)))) n,
      )

  -- The pieces cover the list, and one piece fewer would not.
  pub length-chunks :
      (n : ℕ) (xs : List A)
      → 0 < n
      → (length xs ≤ length (chunks n xs) * n) × (length (chunks n xs) * n < length xs + n)
  unfolding chunks
  length-chunks n xs hn = length-chunks_fuel (length xs) n xs hn (omega arith)
