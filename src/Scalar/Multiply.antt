-- ===== src/Scalar/Multiply.antt =====
-- `scalar_multiply_seal` of src/seal/kernel/multiply_seal.cpp: ciphertext by ciphertext, with and
-- without complex packing, ciphertext by plaintext, and the choice between them.
use he_transformer_research.Base.{
  ℕ, Bool, true, false, ◌&&◌, ◌||◌, not, List, [], ◌∷◌, length, ltb, ◌==◌, eqb, if◌then◌else◌,
  replicate, Result, ok, check_failed, ngraph_error, require, rethrow,
}
use he_transformer_research.HeUtil.{ElementType}
use he_transformer_research.Backend.{Backend}
use he_transformer_research.Machine.{
  M, lift, object_at, cell_at, put_cell, set_plaintext, assign_plaintext, ◌>>=◌, ◌>>◌,
}
use he_transformer_research.Cipher.PlainOps.{multiply_plain, multiply_plain_lazy_mod}
use he_transformer_research.Cipher.Match.{match_modulus_and_scale_inplace}
use he_transformer_research.Cipher.Encode.{encode}
use he_transformer_research.Scalar.Plain.{scalar_multiply_plain}
use he_transformer_research.Scalar.Arith.{cipher_of, ensure_ciphertext, set_complex_packing}

abbrev all_of : {A : Type 0} → (A → Bool) → List A → Bool
all_of f [] = true
all_of f (x ∷ xs) = f x && all_of f xs

module _ (B : Backend) where
  open B use {
    D, Ct, Pt, zero_d, one_d, two_d, mul, neg, negligible, chain_index, scale, with_scale,
    is_transparent, lazy_mod, add_ct, sub_ct, multiply_ct, square_ct, relinearize_ct,
    complex_conjugate, rescale_to_next, slot_count, encode_complex, backend_scale, pt_chain_index,
    multiply_plain_ct,
  }

  -- The doubled real part, or imaginary part, of the values: the sum with the conjugate, or the
  -- difference, at twice the scale.
  pub double_scale : Ct → Ct
  double_scale c = with_scale (mul (scale c) two_d) c

  constant_plain : D × D → Ct → Result Pt
  constant_plain z c = encode_complex (replicate slot_count z) (chain_index c) backend_scale

  -- The branch for complex packing: (c0 re c1 re + (-i) c0 im c1 im) / 4.
  pub complex_product : Ct → Ct → M B Ct
  unfolding double_scale constant_plain
  complex_product c0 c1 = do
    c0_conj ← lift B (complex_conjugate c0)
    c1_conj ← lift B (complex_conjugate c1)
    c0_re ← lift B (add_ct c0 c0_conj)
    c0_im ← lift B (sub_ct c0 c0_conj)
    c1_re ← lift B (add_ct c1 c1_conj)
    c1_im ← lift B (sub_ct c1 c1_conj)
    re ← lift B (multiply_ct (double_scale c0_re) (double_scale c1_re))
    im ← lift B (multiply_ct (double_scale c0_im) (double_scale c1_im))
    prod_re ← lift B (relinearize_ct re)
    prod_im ← lift B (relinearize_ct im)
    neg_i ← lift B (constant_plain (zero_d, neg one_d) prod_im)
    im_part ← lift B (multiply_plain_ct prod_im neg_i)
    fudge_re ← lift B (constant_plain (one_d, zero_d) prod_re)
    re_part ← lift B (multiply_plain_ct prod_re fudge_re)
    sum ← lift B (add_ct re_part im_part)
    lift B (rescale_to_next sum)

  -- The other branch: one cell times itself is a square.
  pub simple_product : Bool → Ct → Ct → M B Ct
  simple_product same c0 c1 = do
    prod ← lift B (if same then square_ct c0 else multiply_ct c0 c1)
    lift B (relinearize_ct prod)

  pub multiply_ciphertexts : ℕ → ℕ → ℕ → Bool → M B (Unit {0})
  multiply_ciphertexts p0 p1 out complex_packing = do
    match_modulus_and_scale_inplace B p0 p1
    c0 ← cell_at B p0
    c1 ← cell_at B p1
    lift B (require (not ((chain_index c0 == 0) || (chain_index c1 == 0))) ngraph_error)
    r ← (if complex_packing then complex_product c0 c1 else simple_product (p0 == p1) c0 c1)
    put_cell B out r

  -- One value: the product with each coefficient, and zeros if nothing of the ciphertext is left.
  pub multiply_single : Ct → D → ℕ → M B (Unit {0})
  multiply_single c v out = do
    ensure_ciphertext B out
    q ← cipher_of B out
    r ← lift B (if lazy_mod then multiply_plain_lazy_mod B c v else multiply_plain B c v)
    put_cell B q r
    if is_transparent r then set_plaintext B out (replicate 1 zero_d) else lift B (ok tt)

  -- Several values, or none: they are encoded, and never packed as complex ones.
  pub multiply_batch : Ct → List D → ℕ → M B (Unit {0})
  multiply_batch c arg1 out = do
    ensure_ciphertext B out
    p ← lift B (encode B arg1 ElementType.f32 (chain_index c) (scale c) false)
    lift B (require (chain_index c == pt_chain_index p) check_failed)
    lift B (require (ltb 0 (chain_index c)) check_failed)
    r ← lift B (rethrow (multiply_plain_ct c p))
    q ← cipher_of B out
    put_cell B q r

  pub multiply_ciphertext_plaintext : ℕ → List D → ℕ → M B (Unit {0})
  multiply_ciphertext_plaintext p0 arg1 out = do
    c ← cell_at B p0
    let batch = multiply_batch c arg1 out
    if all_of negligible arg1
        then set_plaintext B out (replicate (length arg1) zero_d)
        else elim arg1 [ v ∷ [] ↦ multiply_single c v out | _ ↦ batch ]

  -- The ciphertext is `arg`, the plaintext `plain`.
  multiply_mixed : ℕ → ℕ → ℕ → M B (Unit {0})
  multiply_mixed arg plain out = do
    ensure_ciphertext B out
    p ← cipher_of B arg
    h ← object_at B plain
    multiply_ciphertext_plaintext p h.plain out

  multiply_both_cipher : ℕ → ℕ → ℕ → M B (Unit {0})
  multiply_both_cipher arg0 arg1 out = do
    h0 ← object_at B arg0
    h1 ← object_at B arg1
    lift B (require (eqb h0.complex_packing h1.complex_packing) check_failed)
    ensure_ciphertext B out
    p0 ← cipher_of B arg0
    p1 ← cipher_of B arg1
    q ← cipher_of B out
    multiply_ciphertexts p0 p1 q h0.complex_packing

  unfoldable pub multiply_both_plain : ℕ → ℕ → ℕ → M B (Unit {0})
  multiply_both_plain arg0 arg1 out = do
    h0 ← object_at B arg0
    h1 ← object_at B arg1
    lift B (require (eqb h0.complex_packing h1.complex_packing) check_failed)
    o ← object_at B out
    if o.is_plain then lift B (ok tt) else set_plaintext B out []
    g0 ← object_at B arg0
    g1 ← object_at B arg1
    assign_plaintext B out (scalar_multiply_plain B g0.plain g1.plain)

  unfoldable pub scalar_multiply_seal : ℕ → ℕ → ℕ → M B (Unit {0})
  unfolding multiply_mixed multiply_both_cipher multiply_both_plain
  scalar_multiply_seal arg0 arg1 out = do
    h0 ← object_at B arg0
    h1 ← object_at B arg1
    if h0.is_plain
        then (if h1.is_plain
            then multiply_both_plain arg0 arg1 out
            else multiply_mixed arg1 arg0 out)
        else (if h1.is_plain
            then multiply_mixed arg0 arg1 out
            else multiply_both_cipher arg0 arg1 out)
    g0 ← object_at B arg0
    set_complex_packing B out g0.complex_packing
