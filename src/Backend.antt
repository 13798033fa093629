-- ===== src/Backend.antt =====
-- What the code under src/ takes from outside: the arithmetic of `double`, and the calls of SEAL
-- that it makes through `HESealBackend`. Every model that uses them has a `Backend` as parameter.
use he_transformer_research.Base.{ℕ, Bool, List, Result}
use he_transformer_research.HeUtil.{ElementType}
use he_transformer_research.SealUtil.Words.{Modulus}

pub record Backend : Type 1 where
  -- `double`, with the operations that the kernels call. `to_float` is a cast to `float` and back.
  pub D : Type 0
  pub zero_d : D
  pub one_d : D
  pub two_d : D
  pub minus_infinity : D
  pub add : D → D → D
  pub sub : D → D → D
  pub mul : D → D → D
  pub divide : D → D → D
  pub pow : D → D → D
  pub exp : D → D
  pub neg : D → D
  -- `a < b`, `a <= b`, `a == b`, and `std::abs(a) < 1e-5f`
  pub less : D → D → Bool
  pub less_equal : D → D → Bool
  pub equal : D → D → Bool
  pub negligible : D → Bool
  pub to_float : D → D
  -- `std::round` and the conversion to a signed integer, of 32 and of 64 bits
  pub round_i32 : D → D
  pub round_i64 : D → D
  -- The default `factor` 1.05 of `within_rescale_tolerance`
  pub tolerance : D
  -- `seal::Ciphertext`, its place in the modulus chain, its scale, and the words of its
  -- polynomials, by polynomial, residue and coefficient.
  pub Ct : Type 0
  pub empty : Ct
  pub chain_index : Ct → ℕ
  pub scale : Ct → D
  pub with_scale : D → Ct → Ct
  pub is_transparent : Ct → Bool
  pub polys : Ct → List (List (List ℕ))
  pub with_polys : List (List (List ℕ)) → Ct → Ct
  -- `Ciphertext::resize(context, parms_id, size)`
  pub resize_ct : ℕ → Ct → Ct
  -- The coefficient moduli of a ciphertext's parameters and the number of coefficients.
  pub moduli : Ct → List Modulus
  pub coeff_count : ℕ
  -- SEAL's checks that a ciphertext fits its parameters and is in NTT form, and that a scale is
  -- positive and has fewer bits than the total coefficient modulus.
  pub is_valid_ct : Ct → Bool
  pub is_ntt_form : Ct → Bool
  pub is_scale_ok : D → Ct → Bool
  -- `multiply_uint64_hw64`, `multiply_poly_scalar_coeffmod` and `add_poly_scalar_coeffmod` of
  -- `seal::util`.
  pub hw64 : ℕ → ℕ → ℕ
  pub multiply_poly_scalar : List ℕ → ℕ → Modulus → List ℕ
  pub add_poly_scalar : List ℕ → ℕ → Modulus → List ℕ
  -- The residues of a value at a scale: the `encode` of src/seal/seal_util.cpp for one value.
  pub encode_residues : D → D → Ct → Result (List ℕ)
  -- `HESealBackend::is_supported_type`, and the backend's flag for lazy reduction.
  pub is_supported_type : ElementType → Bool
  pub lazy_mod : Bool
  -- `Evaluator`'s calls, which throw where their arguments do not fit. `mod_switch_to c i` switches
  -- `c` to the parameters of the ciphertexts at chain index `i`.
  pub mod_switch_to : Ct → ℕ → Result Ct
  pub rescale_to_next : Ct → Result Ct
  pub add_ct : Ct → Ct → Result Ct
  pub sub_ct : Ct → Ct → Result Ct
  pub negate_ct : Ct → Result Ct
  pub multiply_ct : Ct → Ct → Result Ct
  pub square_ct : Ct → Result Ct
  pub relinearize_ct : Ct → Result Ct
  pub complex_conjugate : Ct → Result Ct
  -- `CKKSEncoder::encode` of one value, of real and of complex values, at a chain index and a
  -- scale, and `decode` to all the slots.
  pub Pt : Type 0
  pub slot_count : ℕ
  pub encode_value : D → ℕ → D → Result Pt
  pub encode_real : List D → ℕ → D → Result Pt
  pub encode_complex : List (D × D) → ℕ → D → Result Pt
  pub decode_real : Pt → Result (List D)
  pub decode_complex : Pt → Result (List (D × D))
  pub pt_chain_index : Pt → ℕ
  pub add_plain_ct : Ct → Pt → Result Ct
  pub multiply_plain_ct : Ct → Pt → Result Ct
  -- `Encryptor` and `Decryptor`; the chain index and the scale of fresh ciphertexts.
  pub encrypt_pt : Pt → Result Ct
  pub decrypt_ct : Ct → Result Pt
  pub first_chain_index : ℕ
  pub backend_scale : D
  -- `seal::Ciphertext` to bytes and back, as `save` and `load` of the wrapper call it.
  pub Bytes : Type 0
  pub save_ct : Ct → Result Bytes
  pub load_ct : Bytes → Result Ct
