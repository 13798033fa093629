-- ===== src/Scalar/Negate.antt =====
-- `scalar_negate_seal` of src/seal/kernel/negate_seal.hpp and negate_seal.cpp, and
-- `scalar_subtract_seal` of subtract_seal.hpp and subtract_seal.cpp. An argument `HEType&` is the
-- address of an object, a `SealCiphertextWrapper&` the address of a cell.
use he_transformer_research.Base.{
  ℕ, Bool, List, map, ◌&&◌, eqb, if◌then◌else◌, check_failed, require,
}
use he_transformer_research.HeUtil.{ElementType}
use he_transformer_research.Backend.{Backend}
use he_transformer_research.Machine.{
  M, lift, object_at, cell_at, put_cell, new_cell, assign_plaintext, is_ciphertext, ◌>>=◌, ◌>>◌,
}
use he_transformer_research.Cipher.Match.{match_modulus_and_scale_inplace}
use he_transformer_research.Scalar.Plain.{scalar_subtract_plain, scalar_negate_plain}
use he_transformer_research.Scalar.Arith.{cipher_of, add_ciphertext_plaintext, set_complex_packing}

module _ (B : Backend) where
  open B use {D, neg, empty, negate_ct, sub_ct, is_supported_type}

  pub negate_ciphertext : ℕ → ℕ → M B (Unit {0})
  negate_ciphertext arg out = do c ← cell_at B arg; r ← lift B (negate_ct c); put_cell B out r

  pub scalar_negate_seal : ℕ → ℕ → ElementType → M B (Unit {0})
  scalar_negate_seal arg out element_type = do
    lift B (require (is_supported_type element_type) check_failed)
    h ← object_at B arg
    o ← object_at B out
    lift B (require (eqb h.complex_packing o.complex_packing) check_failed)
    set_complex_packing B out h.complex_packing
    lift B (
        require (eqb h.is_plain o.is_plain && eqb (is_ciphertext h) (is_ciphertext o)) check_failed)
    let cipher = do p ← cipher_of B arg; q ← cipher_of B out; negate_ciphertext p q
    if h.is_plain then assign_plaintext B out (scalar_negate_plain B h.plain) else cipher

  pub subtract_ciphertexts : ℕ → ℕ → ℕ → M B (Unit {0})
  subtract_ciphertexts p0 p1 out = do
    match_modulus_and_scale_inplace B p0 p1
    c0 ← cell_at B p0
    c1 ← cell_at B p1
    r ← lift B (sub_ct c0 c1)
    put_cell B out r

  -- Ciphertext minus plaintext adds the negated values.
  pub subtract_ciphertext_plaintext : ℕ → List D → ℕ → Bool → M B (Unit {0})
  subtract_ciphertext_plaintext p0 arg1 out complex_packing =
      add_ciphertext_plaintext B p0 (map neg arg1) out complex_packing

  -- Plaintext minus ciphertext negates into a temporary.
  pub subtract_plaintext_ciphertext : List D → ℕ → ℕ → Bool → M B (Unit {0})
  subtract_plaintext_ciphertext arg0 p1 out complex_packing = do
    tmp ← new_cell B empty
    negate_ciphertext p1 tmp
    add_ciphertext_plaintext B tmp arg0 out complex_packing

  subtract_both_cipher : ℕ → ℕ → ℕ → M B (Unit {0})
  subtract_both_cipher arg0 arg1 out = do
    p0 ← cipher_of B arg0
    p1 ← cipher_of B arg1
    q ← cipher_of B out
    subtract_ciphertexts p0 p1 q

  -- Unlike the sum, the difference does not make `out` a ciphertext or a plaintext first.
  pub scalar_subtract_seal : ℕ → ℕ → ℕ → M B (Unit {0})
  scalar_subtract_seal arg0 arg1 out = do
    h0 ← object_at B arg0
    h1 ← object_at B arg1
    lift B (require (eqb h0.complex_packing h1.complex_packing) check_failed)
    set_complex_packing B out h0.complex_packing
    g0 ← object_at B arg0
    g1 ← object_at B arg1
    let cipher_plain = do
      p0 ← cipher_of B arg0
      subtract_ciphertext_plaintext p0 g1.plain out g0.complex_packing
    let plain_cipher = do
      p1 ← cipher_of B arg1
      subtract_plaintext_ciphertext g0.plain p1 out g0.complex_packing
    if g0.is_plain
        then (if g1.is_plain
            then assign_plaintext B out (scalar_subtract_plain B g0.plain g1.plain)
            else plain_cipher)
        else (if g1.is_plain then cipher_plain else subtract_both_cipher arg0 arg1 out)
