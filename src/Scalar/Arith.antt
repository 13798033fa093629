-- ===== src/Scalar/Arith.antt =====
-- `scalar_add_seal` of src/seal/kernel/add_seal.cpp, on ciphertexts and on objects. An argument of
-- type `HEType&` is the address of an object; a `std::shared_ptr&` that is written is the `m_cipher`
-- of the object `out`.
pub mod Alias
use he_transformer_research.Base.{
  ℕ, ◌%◌, max, Bool, true, false, not, ◌&&◌, ◌||◌, some, none, List, [], ◌∷◌, length, map, ltb, leb,
  ◌==◌, eqb, if◌then◌else◌, replicate, resize, Result, ok, err, check_failed, ngraph_error,
  undefined, require,
}
use he_transformer_research.HeUtil.{ElementType}
use he_transformer_research.Backend.{Backend}
use he_transformer_research.Machine.{
  HeType, M, lift, object_at, put_object, cell_at, put_cell, new_cell, pointer, set_ciphertext,
  set_plaintext, assign_plaintext, ◌>>=◌, ◌>>◌,
}
use he_transformer_research.SealUtil.Words.{lazy_add}
use he_transformer_research.Cipher.PlainOps.{add_plain, multiply_plain, multiply_plain_lazy_mod}
use he_transformer_research.Cipher.Match.{match_modulus_and_scale_inplace}
use he_transformer_research.Cipher.Encode.{encode}
use he_transformer_research.Scalar.Plain.{
  scalar_add_plain, scalar_subtract_plain, scalar_multiply_plain, scalar_negate_plain,
}

abbrev lazy_add_residues : ℕ → List (List ℕ) → List (List ℕ) → Result (List (List ℕ))
lazy_add_residues count (x ∷ xs) (y ∷ ys) = elim (lazy_add x y count) [
  | err e ↦ err e
  | ok z ↦ elim (lazy_add_residues count xs ys) [ err e ↦ err e | ok zs ↦ ok (z ∷ zs) ]
]
lazy_add_residues count xs ys = ok xs

-- The polynomials that both operands have are added; the longer operand's others stay.
abbrev lazy_add_polys :
    ℕ → List (List (List ℕ)) → List (List (List ℕ)) → Result (List (List (List ℕ)))
lazy_add_polys count (x ∷ xs) (y ∷ ys) = elim (lazy_add_residues count x y) [
  | err e ↦ err e
  | ok z ↦ elim (lazy_add_polys count xs ys) [ err e ↦ err e | ok zs ↦ ok (z ∷ zs) ]
]
lazy_add_polys count xs ys = ok xs

module _ (B : Backend) where
  open B use {
    D, Ct, zero_d, one_d, two_d, mul, neg, equal, negligible, empty, chain_index, scale, with_scale,
    is_transparent, polys, with_polys, resize_ct, coeff_count, lazy_mod, add_ct, sub_ct, negate_ct,
    multiply_ct, square_ct, relinearize_ct, complex_conjugate, rescale_to_next, slot_count,
    encode_complex, pt_chain_index, add_plain_ct, multiply_plain_ct, is_supported_type,
  }

  -- The cell of the object's ciphertext.
  pub cipher_of : ℕ → M B ℕ
  cipher_of a = do h ← object_at B a; pointer B h

  -- `if (!out.is_ciphertext()) out.set_ciphertext(HESealBackend::create_empty_ciphertext());`
  pub ensure_ciphertext : ℕ → M B (Unit {0})
  ensure_ciphertext out = do
    h ← object_at B out
    let make = do p ← new_cell B empty; set_ciphertext B out p
    if h.is_plain then make else lift B (ok tt)

  -- The lazy branch of the sum: `encrypted1` is `out` and `encrypted2` is `arg0`.
  pub lazy_sum : Ct → Ct → Result Ct
  lazy_sum encrypted1 encrypted2 =
      let size = max (length (polys encrypted1)) (length (polys encrypted2)) in
      let resized = resize_ct size encrypted1 in
      elim (lazy_add_polys coeff_count (polys resized) (polys encrypted2)) [
        | err e ↦ err e
        | ok sums ↦ ok (with_polys sums resized)
      ]

  -- Ciphertext plus ciphertext, on the cells of the three arguments.
  pub add_ciphertexts : ℕ → ℕ → ℕ → M B (Unit {0})
  add_ciphertexts p0 p1 out = do
    match_modulus_and_scale_inplace B p0 p1
    c0 ← cell_at B p0
    c1 ← cell_at B p1
    c ← cell_at B out
    r ← lift B (if lazy_mod then lazy_sum c c0 else add_ct c0 c1)
    put_cell B out r

  pub is_add_zero : List D → Bool
  is_add_zero [] = true
  is_add_zero (x ∷ []) = equal x zero_d
  is_add_zero _ = false

  -- Ciphertext plus plaintext: a zero makes `out` point to a copy of `arg0`.
  pub add_ciphertext_plaintext : ℕ → List D → ℕ → Bool → M B (Unit {0})
  add_ciphertext_plaintext p0 arg1 out complex_packing = do
    c0 ← cell_at B p0
    let copy = do
      q ← new_cell B c0
      h ← object_at B out
      put_object B out (record h { cipher = some q })
    let batch = do
      p ← lift B (encode B arg1 ElementType.f32 (chain_index c0) (scale c0) complex_packing)
      lift B (require (chain_index c0 == pt_chain_index p) check_failed)
      r ← lift B (add_plain_ct c0 p)
      q ← cipher_of out
      put_cell B q r
    let single = λ (v : D). do r ← lift B (add_plain B c0 v); q ← cipher_of out; put_cell B q r
    if is_add_zero arg1
        then copy
        else (elim arg1 [ v ∷ [] ↦ (if complex_packing then batch else single v) | _ ↦ batch ])

  -- `out.complex_packing() = arg0.complex_packing();`
  unfoldable pub set_complex_packing : ℕ → Bool → M B (Unit {0})
  set_complex_packing out flag = do
    h ← object_at B out
    put_object B out (record h { complex_packing = flag })

  -- The branch for ciphertext `arg`, plaintext `plain`: the values are read after `out` is made a
  -- ciphertext.
  pub add_mixed : ℕ → ℕ → ℕ → Bool → M B (Unit {0})
  add_mixed arg plain out complex_packing = do
    ensure_ciphertext out
    p ← cipher_of arg
    h ← object_at B plain
    add_ciphertext_plaintext p h.plain out complex_packing

  unfoldable pub add_both_plain : ℕ → ℕ → ℕ → M B (Unit {0})
  add_both_plain arg0 arg1 out = do
    h ← object_at B out
    if h.is_plain then lift B (ok tt) else set_plaintext B out []
    h0 ← object_at B arg0
    h1 ← object_at B arg1
    assign_plaintext B out (scalar_add_plain B h0.plain h1.plain)

  pub add_both_cipher : ℕ → ℕ → ℕ → M B (Unit {0})
  add_both_cipher arg0 arg1 out = do
    ensure_ciphertext out
    p0 ← cipher_of arg0
    p1 ← cipher_of arg1
    q ← cipher_of out
    add_ciphertexts p0 p1 q

  unfoldable pub scalar_add_seal : ℕ → ℕ → ℕ → M B (Unit {0})
  scalar_add_seal arg0 arg1 out = do
    h0 ← object_at B arg0
    h1 ← object_at B arg1
    lift B (require (eqb h0.complex_packing h1.complex_packing) check_failed)
    set_complex_packing out h0.complex_packing
    g0 ← object_at B arg0
    g1 ← object_at B arg1
    if g0.is_plain
        then (if g1.is_plain
            then add_both_plain arg0 arg1 out
            else add_mixed arg1 arg0 out g0.complex_packing)
        else (if g1.is_plain
            then add_mixed arg0 arg1 out g0.complex_packing
            else add_both_cipher arg0 arg1 out)
