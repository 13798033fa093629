-- ===== src/Cipher/PlainOps.antt =====
-- A ciphertext with one value for every slot: `add_plain`, `multiply_plain` and
-- `multiply_plain_lazy_mod` of src/seal/seal_util.cpp, and the loops of `mod_reduce_seal`
-- (src/seal/kernel/mod_reduce_seal.hpp) and of the lazy `scalar_add_seal`
-- (src/seal/kernel/add_seal.cpp) over one ciphertext.
pub mod Lazy
use he_transformer_research.Base.{
  ℕ, ◌^◌, List, [], ◌∷◌, map, ltb, if◌then◌else◌, Result, ok, err, undefined, ngraph_error, require,
  ◌>>=◌, ◌>>◌,
}
use he_transformer_research.SealUtil.Words.{
  Modulus, multiply_poly_scalar_coeffmod64, mod_reduce_poly, lazy_multiply, lazy_add,
}
use he_transformer_research.Backend.{Backend}

-- A loop over the residues of one polynomial, with a value and a modulus for each.
pub residue_loop :
    (List ℕ → ℕ → Modulus → Result (List ℕ))
    → List Modulus
    → List ℕ
    → List (List ℕ)
    → Result (List (List ℕ))
residue_loop f [] values residues = ok []
residue_loop f (m ∷ moduli) [] residues = err undefined
residue_loop f (m ∷ moduli) (v ∷ values) [] = err undefined
residue_loop f (m ∷ moduli) (v ∷ values) (r ∷ residues) =
    f r v m >>= λ r'. residue_loop f moduli values residues >>= λ rest. ok (r' ∷ rest)

-- A loop over the polynomials.
pub poly_loop :
    (List (List ℕ) → Result (List (List ℕ))) → List (List (List ℕ)) → Result (List (List (List ℕ)))
poly_loop f [] = ok []
poly_loop f (p ∷ polys) = f p >>= λ p'. poly_loop f polys >>= λ rest. ok (p' ∷ rest)

module _ (B : Backend) where
  open B use {
    D, Ct, mul, scale, with_scale, is_transparent, polys, with_polys, moduli, coeff_count,
    is_valid_ct, is_ntt_form, is_scale_ok, hw64, multiply_poly_scalar, add_poly_scalar,
    encode_residues,
  }

  -- `add_plain`: the residues of the value are added to the first polynomial.
  pub add_first : List Modulus → List ℕ → List (List (List ℕ)) → Result (List (List (List ℕ)))
  unfolding residue_loop
  add_first ms values [] = err undefined
  add_first ms values (p ∷ rest) =
      residue_loop (λ r v m. ok (add_poly_scalar r v m)) ms values p >>= λ p'. ok (p' ∷ rest)

  pub add_plain : Ct → D → Result Ct
  unfolding add_first
  add_plain encrypted value = do
    require (is_valid_ct encrypted) ngraph_error
    require (is_ntt_form encrypted) ngraph_error
    values ← encode_residues value (scale encrypted) encrypted
    sums ← add_first (moduli encrypted) values (polys encrypted)
    let destination = with_polys sums encrypted
    if is_transparent destination then err ngraph_error else ok destination

  -- Moduli below 2^31 take the loop of this repository, the others SEAL's.
  pub multiply_residue : List ℕ → ℕ → Modulus → Result (List ℕ)
  multiply_residue r v m =
      if ltb m.value (2 ^ 31)
      then multiply_poly_scalar_coeffmod64 hw64 r coeff_count v m
      else ok (multiply_poly_scalar r v m)

  pub multiply_plain : Ct → D → Result Ct
  unfolding poly_loop residue_loop multiply_residue
  multiply_plain encrypted value = do
    require (is_valid_ct encrypted) ngraph_error
    require (is_ntt_form encrypted) ngraph_error
    values ← encode_residues value (scale encrypted) encrypted
    let new_scale = mul (scale encrypted) (scale encrypted)
    require (is_scale_ok new_scale encrypted) ngraph_error
    products ← poly_loop (residue_loop multiply_residue (moduli encrypted) values) (polys encrypted)
    ok (with_scale new_scale (with_polys products encrypted))

  pub multiply_plain_lazy_mod : Ct → D → Result Ct
  unfolding poly_loop residue_loop
  multiply_plain_lazy_mod encrypted value = do
    values ← encode_residues value (scale encrypted) encrypted
    products ←
        poly_loop (residue_loop (λ r v m. lazy_multiply r coeff_count v) (moduli encrypted) values)
          (polys encrypted)
    ok (with_scale (mul (scale encrypted) (scale encrypted)) (with_polys products encrypted))

  -- The three inner loops of `mod_reduce_seal`.
  pub mod_reduce_ct : Ct → Result Ct
  unfolding poly_loop residue_loop
  mod_reduce_ct encrypted = do
    let ms = moduli encrypted
    reduced ←
        poly_loop
          (residue_loop (λ r v m. mod_reduce_poly hw64 r coeff_count m) ms (map (λ m. 0) ms))
          (polys encrypted)
    ok (with_polys reduced encrypted)
