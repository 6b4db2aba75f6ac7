-- ===== src/Bud/Chunks.antt =====
-- The chunks of `getMetadatas` of src/bud/bud.service.ts.
use backend.Common.{
  ℕ, zero, suc, ◌+◌, ◌≤◌, ◌≡◌, refl, sym, Bool-cases, inl, inr, ◌∙◌, ap, List, [], ◌∷◌, ◌++◌, arith,
  ltb, length, take, drop, All, take-append-drop,
}
use native.Mathlib.Numerals.{unary_clauses}
use backend.Bud.Service.{chunks_from, chunks}

zero_plus : (n : ℕ) → 0 + n ≡ n
zero_plus n = omega arith

suc_plus : (i n : ℕ) → suc i + n ≡ suc (i + n)
suc_plus i n = omega arith

module _ {A : Type 0} where
  -- The lists of a list, joined in order.
  abbrev pub join : List (List A) → List A
  join [] = []
  join (c ∷ cs) = c ++ join cs

  drop_all : (i : ℕ) (xs : List A) → length xs ≤ i → drop i xs ≡ []
  drop_all zero [] h = refl
  drop_all zero (x ∷ xs) h = ground arith
  drop_all (suc i) [] h = refl
  drop_all (suc i) (x ∷ xs) h = drop_all i xs (omega (arith, h))

  drop_add : (i n : ℕ) (xs : List A) → drop (i + n) xs ≡ drop n (drop i xs)
  drop_add zero n xs = ap (λ k. drop k xs) (zero_plus n)
  drop_add (suc i) zero [] = simp unary_clauses refl
  drop_add (suc i) (suc n) [] = simp unary_clauses refl
  drop_add (suc i) n (x ∷ xs) = ap (λ k. drop k (x ∷ xs)) (suc_plus i n) ∙ drop_add i n xs

  length-take_le : (n : ℕ) (xs : List A) → length (take n xs) ≤ n
  length-take_le zero xs = omega arith
  length-take_le (suc n) [] = omega arith
  length-take_le (suc n) (x ∷ xs) = omega (arith, length-take_le n xs)

  chunks_from-join :
      (fuel size : ℕ) (ids : List A) (i : ℕ)
      → 1 ≤ size
      → length ids ≤ i + fuel
      → join (chunks_from fuel size ids i) ≡ drop i ids
  unfolding chunks_from
  chunks_from-join zero size ids i h l = sym (drop_all i ids (omega (arith, l)))
  chunks_from-join (suc fuel) size ids i h l = elim (Bool-cases (ltb i (length ids))) [
    | inl t ↦
        rw
          (
            t,
            chunks_from-join fuel size ids (i + size) h (omega (arith, h, l)),
            drop_add i size ids,
          )
          (take-append-drop size (drop i ids))
    | inr t ↦ rw t (sym (drop_all i ids (ground arith)))
  ]

  chunks_from-All :
      (fuel size : ℕ) (ids : List A) (i : ℕ)
      → All (λ c. length c ≤ size) (chunks_from fuel size ids i)
  unfolding chunks_from
  chunks_from-All zero size ids i = tt
  chunks_from-All (suc fuel) size ids i = elim (Bool-cases (ltb i (length ids))) [
    | inl t ↦ rw t (length-take_le size (drop i ids), chunks_from-All fuel size ids (i + size))
    | inr t ↦ rw t tt
  ]

  -- Chunks of a positive size are the ids in their order, each once, and none is longer than the
  -- size.
  pub chunks-join :
      (size : ℕ) (ids : List A)
      → 1 ≤ size
      → (join (chunks size ids) ≡ ids) × All (λ c. length c ≤ size) (chunks size ids)
  unfolding chunks
  chunks-join size ids h = (
    chunks_from-join (length ids) size ids 0 h (omega arith),
    chunks_from-All (length ids) size ids 0,
  )
