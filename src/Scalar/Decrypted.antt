-- ===== src/Scalar/Decrypted.antt =====
-- The kernels that work on decrypted values and encrypt the result: minimum_seal.cpp,
-- power_seal.cpp, divide_seal.cpp, exp_seal.cpp, relu_seal.cpp and bounded_relu_seal.cpp of
-- src/seal/kernel, on objects and on vectors of them. The loops are modelled in the order of the
-- indices.
use he_transformer_research.Base.{
  ℕ, Bool, List, length, resize, map, eqb, if◌then◌else◌, Result, ok, check_failed, require,
}
use he_transformer_research.HeUtil.{ElementType}
use he_transformer_research.Backend.{Backend}
use he_transformer_research.Machine.{
  HeType, M, lift, object_at, put_object, cell_at, put_cell, pointer, set_ciphertext, set_plaintext,
  assign_plaintext, ◌>>=◌, ◌>>◌,
}
use he_transformer_research.Cipher.Encode.{encrypt, backend_encrypt, decrypt}
use he_transformer_research.Scalar.Plain.{
  scalar_minimum_plain, scalar_power_plain, scalar_divide_plain, scalar_exp_plain,
  scalar_relu_plain, scalar_bounded_relu_plain,
}
use he_transformer_research.Scalar.Arith.{cipher_of}
use he_transformer_research.Scalar.Multiply.{scalar_multiply_seal}
use he_transformer_research.Scalar.Loops.{binary_loop, unary_loop}

module _ (B : Backend) where
  open B use {D, zero_d, one_d, divide, first_chain_index, backend_scale, is_supported_type}

  pub decrypt_object : HeType D → M B (List D)
  decrypt_object h = do
    p ← pointer B h
    c ← cell_at B p
    lift B (decrypt B c h.complex_packing h.batch_size)

  pub values_of : HeType D → M B (List D)
  unfolding decrypt_object
  values_of h = if h.is_plain then lift B (ok h.plain) else decrypt_object h

  -- `he_seal_backend.encrypt(out.get_ciphertext(), …)` into the cell that `out` has.
  pub encrypt_into : ℕ → List D → Bool → M B (Unit {0})
  encrypt_into out values complex_packing = do
    c ← lift B (backend_encrypt B values ElementType.f32 complex_packing)
    q ← cipher_of B out
    put_cell B q c

  pub scalar_minimum_seal : ℕ → ℕ → ℕ → M B (Unit {0})
  scalar_minimum_seal arg0 arg1 out = do
    h0 ← object_at B arg0
    h1 ← object_at B arg1
    v0 ← values_of h0
    v1 ← values_of h1
    let values = scalar_minimum_plain B v0 v1
    o ← object_at B out
    if o.is_plain then set_plaintext B out values else encrypt_into out values o.complex_packing

  pub minimum_seal : List ℕ → List ℕ → List ℕ → ℕ → M B (Unit {0})
  minimum_seal arg0 arg1 out count = binary_loop B scalar_minimum_seal arg0 arg1 out 0 count

  -- The shape that `scalar_power_seal` and `scalar_divide_seal` share: the packings are compared for
  -- two ciphertexts, `f` is for decrypted values, `f_plain` for two plaintexts, and `mixed` is what is
  -- done for a ciphertext and a plaintext.
  decrypted_binary :
      (List D → List D → Result (List D))
      → (List D → List D → Result (List D))
      → M B (Unit {0})
      → ℕ
      → ℕ
      → ℕ
      → M B (Unit {0})
  decrypted_binary f f_plain mixed arg0 arg1 out = do
    h0 ← object_at B arg0
    h1 ← object_at B arg1
    let ciphers = do
      lift B (require (eqb h0.complex_packing h1.complex_packing) check_failed)
      v0 ← decrypt_object h0
      v1 ← decrypt_object h1
      values ← lift B (f v0 v1)
      encrypt_into out values h0.complex_packing
    let plain_cipher = do
      v1 ← decrypt_object h1
      values ← lift B (f h0.plain v1)
      encrypt_into out values h0.complex_packing
    let plains = do
      set_plaintext B out h0.plain
      g0 ← object_at B arg0
      g1 ← object_at B arg1
      values ← lift B (f_plain g0.plain g1.plain)
      assign_plaintext B out values
    if h0.is_plain
        then (if h1.is_plain then plains else plain_cipher)
        else (if h1.is_plain then mixed else ciphers)

  pub scalar_power_seal : ℕ → ℕ → ℕ → M B (Unit {0})
  unfolding decrypted_binary
  scalar_power_seal arg0 arg1 out =
      let mixed : M B (Unit {0}) = (do
        h0 ← object_at B arg0
        h1 ← object_at B arg1
        v0 ← decrypt_object h0
        encrypt_into out (scalar_power_plain B v0 h1.plain) h0.complex_packing) in
      decrypted_binary (λ x y. ok (scalar_power_plain B x y)) (λ x y. ok (scalar_power_plain B x y))
        mixed arg0 arg1 out

  -- The quotient of decrypted values is written over the divisor, which is first resized to the
  -- length of the dividend, with zeros. A ciphertext is divided by a plaintext as the product with the
  -- inverses, which have the address `tmp` for the call.
  pub scalar_divide_seal : ℕ → ℕ → ℕ → ℕ → M B (Unit {0})
  unfolding decrypted_binary
  scalar_divide_seal tmp arg0 arg1 out =
      let mixed : M B (Unit {0}) = (do
        h1 ← object_at B arg1
        put_object B tmp (record h1 { plain = map (λ x. divide one_d x) h1.plain })
        scalar_multiply_seal B arg0 tmp out) in
      let in_place : List D → List D → Result (List D) =
        λ x y. scalar_divide_plain B x (resize (length x) zero_d y) in
      decrypted_binary in_place (scalar_divide_plain B) mixed arg0 arg1 out

  pub power_seal : List ℕ → List ℕ → List ℕ → ℕ → ElementType → M B (Unit {0})
  power_seal arg0 arg1 out count element_type = do
    lift B (require (is_supported_type element_type) check_failed)
    binary_loop B scalar_power_seal arg0 arg1 out 0 count

  pub divide_seal : ℕ → List ℕ → List ℕ → List ℕ → ℕ → ElementType → M B (Unit {0})
  divide_seal tmp arg0 arg1 out count element_type = do
    lift B (require (is_supported_type element_type) check_failed)
    binary_loop B (scalar_divide_seal tmp) arg0 arg1 out 0 count

  -- The shape of the exponential and the rectifiers: a ciphertext is decrypted and encrypted again
  -- into the cell that `out` has.
  pub decrypted_unary : (List D → List D) → ℕ → ℕ → M B (Unit {0})
  unfolding decrypt_object
  decrypted_unary f arg out = do
    h ← object_at B arg
    let plaintext = do
      set_plaintext B out h.plain
      g ← object_at B arg
      assign_plaintext B out (f g.plain)
    let ciphertext = do
      values ← decrypt_object h
      c ←
          lift B
            (encrypt B (f values) ElementType.f32 first_chain_index backend_scale h.complex_packing)
      q ← cipher_of B out
      put_cell B q c
    if h.is_plain then plaintext else ciphertext

  pub scalar_exp_seal : ℕ → ℕ → M B (Unit {0})
  unfolding decrypted_unary
  scalar_exp_seal = decrypted_unary (scalar_exp_plain B)

  pub scalar_bounded_relu_seal : D → ℕ → ℕ → M B (Unit {0})
  unfolding decrypted_unary
  scalar_bounded_relu_seal alpha = decrypted_unary (scalar_bounded_relu_plain B alpha)

  -- The rectifier also makes `out` a ciphertext, after the encryption.
  pub scalar_relu_seal : ℕ → ℕ → M B (Unit {0})
  unfolding decrypted_unary
  scalar_relu_seal arg out = do
    h ← object_at B arg
    decrypted_unary (scalar_relu_plain B) arg out
    let mark = do q ← cipher_of B out; set_ciphertext B out q
    if h.is_plain then lift B (ok tt) else mark

  pub exp_seal : List ℕ → List ℕ → ℕ → M B (Unit {0})
  exp_seal arg out count = unary_loop B scalar_exp_seal arg out 0 count

  pub relu_seal : List ℕ → List ℕ → ℕ → M B (Unit {0})
  relu_seal arg out count = unary_loop B scalar_relu_seal arg out 0 count

  pub bounded_relu_seal : List ℕ → List ℕ → D → ℕ → M B (Unit {0})
  bounded_relu_seal arg out alpha count =
      unary_loop B (scalar_bounded_relu_seal alpha) arg out 0 count
