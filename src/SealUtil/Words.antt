-- ===== src/SealUtil/Words.antt =====
-- `multiply_poly_scalar_coeffmod64` of src/seal/seal_util.cpp and the inner loop of
-- `mod_reduce_seal` of src/seal/kernel/mod_reduce_seal.hpp, over words of 64 bits.
-- SEAL's `multiply_uint64_hw64` and the constants of a `seal::Modulus` are parameters.
pub mod Barrett
use he_transformer_research.Base.{
  ℕ, zero, suc, ◌+◌, ◌-◌, ◌*◌, ◌/◌, ◌%◌, ◌^◌, ◌≤◌, ◌<◌, ◌≡◌, List, [], ◌∷◌, leb, if◌then◌else◌,
  Result, ok, err, undefined, ◌>>=◌,
}

abbrev pub u64_mod : ℕ
u64_mod = 2 ^ 64

-- What the code reads of a `seal::Modulus`: `value()` and `const_ratio()[1]`.
pub record Modulus : Type 0 where
  pub value : ℕ
  pub const_ratio_1 : ℕ

-- The documented contents of a `seal::Modulus`: the ratio is the quotient of 2^128 by the value,
-- and the word at 1 is its upper half. SEAL's moduli have at most 61 bits.
pub record IsModulus (m : Modulus) : Type 0 where
  pub positive : 1 < m.value
  pub bits : m.value < 2 ^ 61
  pub ratio : m.const_ratio_1 ≡ u64_mod / m.value

-- `multiply_uint64_hw64(a, b, &c)` stores the upper word of the product of two words.
abbrev pub IsHighWord : (ℕ → ℕ → ℕ) → Type 0
IsHighWord hw64 = (a b : ℕ) → a < u64_mod → b < u64_mod → hw64 a b ≡ a * b / u64_mod

-- `modulus_value & -(carry >= modulus_value)`: all the bits of the value, or none.
abbrev pub correction : ℕ → ℕ → ℕ
correction q carry = if leb q carry then q else 0

module _ (hw64 : ℕ → ℕ → ℕ) where
  -- The Barrett reduction of the word `z`, with the wrap-around of each subtraction.
  pub reduce_word : Modulus → ℕ → ℕ
  reduce_word m z =
      let carry = hw64 z m.const_ratio_1 in
      let rest = (z + u64_mod - carry * m.value % u64_mod) % u64_mod in
      (rest + u64_mod - correction m.value rest) % u64_mod

  -- The loop over the `coeff_count` words of the polynomial; a read behind its end is undefined.
  pub multiply_poly_scalar_coeffmod64 : List ℕ → ℕ → ℕ → Modulus → Result (List ℕ)
  multiply_poly_scalar_coeffmod64 poly zero scalar m = ok []
  multiply_poly_scalar_coeffmod64 [] (suc n) scalar m = err undefined
  multiply_poly_scalar_coeffmod64 (p ∷ poly) (suc n) scalar m =
      multiply_poly_scalar_coeffmod64 poly n scalar m >>= λ rest.
      ok (reduce_word m (p * scalar % u64_mod) ∷ rest)

  -- The innermost loop of `mod_reduce_seal`, over the words of one residue.
  pub mod_reduce_poly : List ℕ → ℕ → Modulus → Result (List ℕ)
  mod_reduce_poly poly zero m = ok poly
  mod_reduce_poly [] (suc n) m = err undefined
  mod_reduce_poly (p ∷ poly) (suc n) m =
      mod_reduce_poly poly n m >>= λ rest. ok (reduce_word m p ∷ rest)

-- The innermost loops of `multiply_plain_lazy_mod` and of the lazy branch of `scalar_add_seal`:
-- products and sums of words that wrap around and are not reduced.
pub lazy_multiply : List ℕ → ℕ → ℕ → Result (List ℕ)
lazy_multiply src zero scalar = ok []
lazy_multiply [] (suc n) scalar = err undefined
lazy_multiply (p ∷ src) (suc n) scalar =
    lazy_multiply src n scalar >>= λ rest. ok (p * scalar % u64_mod ∷ rest)

pub lazy_add : List ℕ → List ℕ → ℕ → Result (List ℕ)
lazy_add operand1 operand2 zero = ok operand1
lazy_add [] operand2 (suc n) = err undefined
lazy_add (a ∷ operand1) [] (suc n) = err undefined
lazy_add (a ∷ operand1) (b ∷ operand2) (suc n) =
    lazy_add operand1 operand2 n >>= λ rest. ok ((a + b) % u64_mod ∷ rest)
