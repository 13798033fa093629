-- ===== src/HeUtil/Packing.antt =====
-- The conversions of he_util are inverse to each other, as far as the values allow.
use he_transformer_research.Base.{
  ℕ, ◌+◌, ◌%◌, ◌≡◌, refl, ap, ◌∙◌, ◌⊎◌, inl, inr, List, [], ◌∷◌, ◌++◌, length, ◌==◌, if◌then◌else◌,
  arith,
}
use he_transformer_research.HeUtil.{
  ElementType, PbElementType, type_to_pb_type, pb_type_to_type, complex_vec_to_real_vec,
  complex_loop, real_vec_to_complex_vec,
}

pub pb_type_to_type-type_to_pb_type : (t : ElementType) → pb_type_to_type (type_to_pb_type t) ≡ t
unfolding type_to_pb_type pb_type_to_type
pb_type_to_type-type_to_pb_type ElementType.undefined = refl
pb_type_to_type-type_to_pb_type _ = refl

type_to_pb_type-pb_type_to_type :
    (p : PbElementType)
    → (type_to_pb_type (pb_type_to_type p) ≡ p) ⊎ (pb_type_to_type p ≡ ElementType.undefined)
unfolding type_to_pb_type pb_type_to_type
type_to_pb_type-pb_type_to_type PbElementType.min_sentinel = inr refl
type_to_pb_type-pb_type_to_type PbElementType.max_sentinel = inr refl
type_to_pb_type-pb_type_to_type _ = inl refl

-- Every element type comes back from the wire as it was sent; a wire type comes back from its
-- element type, or it is one of those that are read as `undefined`.
pub type_to_pb_type-roundtrip :
    (t : ElementType) (p : PbElementType)
    → (pb_type_to_type (type_to_pb_type t) ≡ t)
      × ((type_to_pb_type (pb_type_to_type p) ≡ p) ⊎ (pb_type_to_type p ≡ ElementType.undefined))
type_to_pb_type-roundtrip t p =
    (pb_type_to_type-type_to_pb_type t, type_to_pb_type-pb_type_to_type p)

module _ {D : Type 0} (zero_d : D) where
  -- Neighbours in pairs, the last one with a zero if it is alone.
  pub pairs : List D → List (D × D)
  pairs [] = []
  pairs (x ∷ []) = (x, zero_d) ∷ []
  pairs (x ∷ y ∷ xs) = (x, y) ∷ pairs xs

  complex_loop-eq_pairs :
      (size : ℕ) (xs : List D) (i : ℕ)
      → i % 2 ≡ 0
      → i + length xs ≡ size
      → complex_loop zero_d size xs i zero_d zero_d ≡ pairs xs
  unfolding complex_loop pairs
  complex_loop-eq_pairs size [] i even e = refl
  complex_loop-eq_pairs size (x ∷ []) i even e = ground arith
  complex_loop-eq_pairs size (x ∷ y ∷ xs) i even e =
      ground (arith, complex_loop-eq_pairs size xs (i + 1 + 1) (omega arith) (omega arith))

  pub real_vec_to_complex_vec-eq_pairs :
      (xs : List D) → real_vec_to_complex_vec zero_d xs ≡ pairs xs
  unfolding real_vec_to_complex_vec
  real_vec_to_complex_vec-eq_pairs xs = complex_loop-eq_pairs (length xs) xs 0 refl (omega arith)

  pairs-complex_vec_to_real_vec : (zs : List (D × D)) → pairs (complex_vec_to_real_vec zs) ≡ zs
  unfolding pairs complex_vec_to_real_vec
  pairs-complex_vec_to_real_vec [] = refl
  pairs-complex_vec_to_real_vec (z ∷ zs) = ap (λ l. z ∷ l) (pairs-complex_vec_to_real_vec zs)

  complex_vec_to_real_vec-pairs :
      (xs : List D)
      → complex_vec_to_real_vec (pairs xs) ≡ xs ++ (if length xs % 2 == 1 then zero_d ∷ [] else [])
  unfolding pairs complex_vec_to_real_vec
  complex_vec_to_real_vec-pairs [] = refl
  complex_vec_to_real_vec-pairs (x ∷ []) = refl
  complex_vec_to_real_vec-pairs (x ∷ y ∷ xs) = ground (arith, complex_vec_to_real_vec-pairs xs)

  -- Complex values survive the way through real ones; real values come back from the complex ones
  -- as they were, with one zero behind them if their number is odd.
  pub complex_packing_roundtrip :
      (zs : List (D × D)) (xs : List D)
      → (real_vec_to_complex_vec zero_d (complex_vec_to_real_vec zs) ≡ zs)
        × (complex_vec_to_real_vec (real_vec_to_complex_vec zero_d xs)
            ≡ xs ++ (if length xs % 2 == 1 then zero_d ∷ [] else []))
  complex_packing_roundtrip zs xs = (
    real_vec_to_complex_vec-eq_pairs _ ∙ pairs-complex_vec_to_real_vec zs,
    ap complex_vec_to_real_vec (real_vec_to_complex_vec-eq_pairs xs)
        ∙ complex_vec_to_real_vec-pairs xs,
  )
