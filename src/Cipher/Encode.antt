-- ===== src/Cipher/Encode.antt =====
-- Values to plaintexts and ciphertexts and back: `encode`, `encrypt`, `decode` and `decrypt` of
-- src/seal/seal_util.cpp, and the checks of `HESealBackend::encrypt`
-- (src/seal/he_seal_backend.cpp). The build without ABY has no reduction in `decode`.
use he_transformer_research.Base.{
  ℕ, ◌*◌, Bool, true, false, List, [], ◌∷◌, length, leb, if◌then◌else◌, replicate, resize, take,
  Result, ok, undefined, check_failed, require, ◌>>=◌, ◌>>◌,
}
use he_transformer_research.HeUtil.{ElementType, complex_vec_to_real_vec, real_vec_to_complex_vec}
use he_transformer_research.Backend.{Backend}

-- The element types of the switch that are encoded.
pub is_encodable : ElementType → Bool
is_encodable ElementType.i32 = true
is_encodable ElementType.i64 = true
is_encodable ElementType.f32 = true
is_encodable ElementType.f64 = true
is_encodable _ = false

module _ (B : Backend) where
  open B use {
    D, Ct, Pt, zero_d, slot_count, encode_value, encode_real, encode_complex, decode_real,
    decode_complex, encrypt_pt, decrypt_ct, first_chain_index, backend_scale,
  }

  pub complex_values : List D → List (D × D)
  complex_values (x ∷ []) = replicate slot_count (x, x)
  complex_values plaintext = real_vec_to_complex_vec zero_d plaintext

  -- `encode(destination, plaintext, …)`, at a chain index and a scale.
  pub encode : List D → ElementType → ℕ → D → Bool → Result Pt
  unfolding complex_values is_encodable
  encode plaintext element_type level scale complex_packing = do
    require (is_encodable element_type) check_failed
    let zs = complex_values plaintext
    let complex = require (leb (length zs) slot_count) check_failed >> encode_complex zs level scale
    let real =
        require (leb (length plaintext) slot_count) check_failed
        >> encode_real plaintext level scale
    if complex_packing
        then complex
        else elim plaintext [ x ∷ [] ↦ encode_value x level scale | _ ↦ real ]

  -- `encrypt(output, input, …)`: what is written to the ciphertext of `output`.
  pub encrypt : List D → ElementType → ℕ → D → Bool → Result Ct
  unfolding encode
  encrypt input element_type level scale complex_packing =
      encode input element_type level scale complex_packing >>= encrypt_pt

  -- `HESealBackend::encrypt`
  pub backend_encrypt : List D → ElementType → Bool → Result Ct
  unfolding encrypt
  backend_encrypt input element_type complex_packing = do
    require (leb 1 (length input)) check_failed
    encrypt input element_type first_chain_index backend_scale complex_packing

  pub decode : Pt → ℕ → Bool → Result (List D)
  decode input batch_size complex_packing =
      if complex_packing
      then (decode_complex input >>= λ zs. ok (
          resize batch_size zero_d
            (complex_vec_to_real_vec (resize (2 * batch_size) (zero_d, zero_d) zs))))
      else (decode_real input >>= λ xs.
          require (leb batch_size (length xs)) undefined >> ok (take batch_size xs))

  pub decrypt : Ct → Bool → ℕ → Result (List D)
  unfolding decode
  decrypt input complex_packing batch_size =
      decrypt_ct input >>= λ p. decode p batch_size complex_packing
