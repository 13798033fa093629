-- ===== src/Tests/Words.antt =====
-- The theorems on words, polynomials and ciphertexts at concrete inputs.
use he_transformer_research.Base.{
  ℕ, true, ◌^◌, ◌-◌, ◌+◌, ◌*◌, ◌%◌, ◌/◌, ◌<◌, ◌≤◌, ◌≡◌, ◌++◌, refl, List, [], ◌∷◌, map, ok, ◌>>=◌,
  arith,
}
use he_transformer_research.SealUtil.Words.{
  u64_mod, IsModulus, IsHighWord, reduce_word, mod_reduce_poly, lazy_multiply, lazy_add,
}
use he_transformer_research.SealUtil.Words.Barrett.{reduce_word-mod, lazy_add-mod_reduce}
use he_transformer_research.Cipher.PlainOps.{residue_loop, poly_loop, multiply_residue}
use he_transformer_research.Cipher.PlainOps.Lazy.{products, Fits, lazy_then_reduce-eq_eager}
use he_transformer_research.AbyUtil.{split_vector}
use he_transformer_research.AbyUtil.Balance.{boundary, split_vector-eq_boundaries}
use he_transformer_research.HeUtil.{complex_vec_to_real_vec, real_vec_to_complex_vec}
use he_transformer_research.HeUtil.Packing.{complex_packing_roundtrip}
use he_transformer_research.SealUtil.Residues.{encode_coefficient}
use he_transformer_research.SealUtil.Residues.Exact.{encode_coefficient-residues}
use he_transformer_research.Tests.Toy.{seventeen, toy}

seventeen-IsModulus : IsModulus seventeen
seventeen-IsModulus = record { positive = omega arith; bits = omega arith; ratio = refl }

high_word : IsHighWord (λ a b. a * b / u64_mod)
high_word = λ a b p q. refl

reduce_word-mod_example : reduce_word (λ a b. a * b / u64_mod) seventeen 1000000 ≡ 1000000 % 17
reduce_word-mod_example =
    reduce_word-mod (λ a b. a * b / u64_mod) high_word seventeen seventeen-IsModulus 1000000
      (omega arith)

lazy_add-mod_reduce_example :
    (lazy_add (5 ∷ 16 ∷ []) (15 ∷ 16 ∷ []) 2 >>= λ w.
    mod_reduce_poly (λ a b. a * b / u64_mod) w 2 seventeen)
    ≡ ok (3 ∷ 15 ∷ [])
lazy_add-mod_reduce_example =
    lazy_add-mod_reduce (λ a b. a * b / u64_mod) high_word seventeen seventeen-IsModulus
      (5 ∷ 16 ∷ []) (15 ∷ 16 ∷ []) refl (omega arith, (omega arith, tt))
      (omega arith, (omega arith, tt))

abbrev two_polys : List (List (List ℕ))
two_polys = ((5 ∷ 16 ∷ []) ∷ []) ∷ ((3 ∷ 4 ∷ []) ∷ []) ∷ []

one_residue : (a b : ℕ) → a < 17 → b < 17 → Fits 2 (seventeen ∷ []) (7 ∷ []) ((a ∷ b ∷ []) ∷ [])
one_residue a b p q = (seventeen-IsModulus, omega arith, omega arith, (p, (q, tt)), refl, tt)

lazy_then_reduce-eq_eager_example :
    (poly_loop (residue_loop (multiply_residue toy) (seventeen ∷ []) (7 ∷ [])) two_polys
      ≡ ok (map (products (seventeen ∷ []) (7 ∷ [])) two_polys))
    × ((poly_loop (residue_loop (λ r v m. lazy_multiply r 2 v) (seventeen ∷ []) (7 ∷ [])) two_polys
          >>= poly_loop
              (residue_loop (λ r v m. mod_reduce_poly toy.hw64 r 2 m) (seventeen ∷ []) (0 ∷ [])))
        ≡ ok (map (products (seventeen ∷ []) (7 ∷ [])) two_polys))
lazy_then_reduce-eq_eager_example =
    lazy_then_reduce-eq_eager toy high_word (seventeen ∷ []) (7 ∷ []) two_polys (
      one_residue 5 16 (omega arith) (omega arith),
      (one_residue 3 4 (omega arith) (omega arith), tt),
    )

split_vector-eq_boundaries_example :
    (split_vector 10 3 ≡ ok ((0, 4) ∷ (4, 7) ∷ (7, 10) ∷ []))
    × (boundary 10 3 0 ≡ 0)
    × (boundary 10 3 3 ≡ 10)
    × (boundary 10 3 1 + 10 / 3 ≤ boundary 10 3 2)
    × (boundary 10 3 2 ≤ boundary 10 3 1 + 10 / 3 + 1)
unfolding boundary
split_vector-eq_boundaries_example = split_vector-eq_boundaries 10 3 1 (omega arith)

abbrev two_pairs : List (ℕ × ℕ)
two_pairs = (1, 2) ∷ (3, 4) ∷ []

abbrev zero_value : ℕ
zero_value = 0

abbrev three_values : List ℕ
three_values = 1 ∷ 2 ∷ 3 ∷ []

complex_packing_roundtrip_example :
    (real_vec_to_complex_vec zero_value (complex_vec_to_real_vec two_pairs) ≡ two_pairs)
    × (complex_vec_to_real_vec (real_vec_to_complex_vec zero_value three_values)
        ≡ three_values ++ (zero_value ∷ []))
complex_packing_roundtrip_example = complex_packing_roundtrip zero_value two_pairs three_values

-- The remainder of two words, and the negation modulo the modulus.
abbrev remainder_128 : ℕ → ℕ → ℕ → ℕ
remainder_128 lo hi m = (lo + hi * u64_mod) % m

abbrev negated : ℕ → ℕ → ℕ
negated r m = (m - r) % m

encode_coefficient-residues_example :
    encode_coefficient remainder_128 negated (17 ∷ 13 ∷ []) 130 true (2 ^ 100 + 5)
    ≡ ok (13 ∷ 5 ∷ [])
encode_coefficient-residues_example =
    encode_coefficient-residues remainder_128 negated (λ lo hi m pos. refl) (λ r m lt. refl)
      (17 ∷ 13 ∷ []) 130 true (2 ^ 100 + 5) (omega arith, (omega arith, tt))
      ((λ e. ground arith), (λ e. ground arith), (λ e. (omega arith, omega arith)))
