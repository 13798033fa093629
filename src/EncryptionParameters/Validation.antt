-- ===== src/EncryptionParameters/Validation.antt =====
-- What `validate_parameters` lets through, and what two sets of parameters of one context share.
use text.Mathlib.Text.{◌==◌ as str_eq}
use he_transformer_research.Base.{
  require-true, ℕ, ◌+◌, ◌≤◌, ◌<◌, ◌^◌, ◌≡◌, refl, Bool, true, false, ◌&&◌, eqb_refl, ==_refl, ok,
  check_failed, ◌>>=◌, ◌>>◌, require, inl, inr, ◌⊎◌, arith,
}
use he_transformer_research.Cipher.Rescale.{seal_security_level}
use he_transformer_research.EncryptionParameters.{
  SealParms, Params, is_valid_degree, is_valid_level, validate_parameters, params_equal,
  same_context,
}

-- A step that the code passed did not throw.
is_valid_degree-power : (n : ℕ) → is_valid_degree n ≡ true → (k : ℕ) × (k ≤ 5) × (n ≡ 2 ^ (10 + k))
unfolding is_valid_degree
is_valid_degree-power n h =
    let cases : (n ≡ 1024)
        ⊎ ((n ≡ 2048) ⊎ ((n ≡ 4096) ⊎ ((n ≡ 8192) ⊎ ((n ≡ 16384) ⊎ (n ≡ 32768))))) =
      ground arith in
    elim cases [
      | inl e ↦ (0, omega arith, e)
      | inr (inl e) ↦ (1, omega arith, e)
      | inr (inr (inl e)) ↦ (2, omega arith, e)
      | inr (inr (inr (inl e))) ↦ (3, omega arith, e)
      | inr (inr (inr (inr (inl e)))) ↦ (4, omega arith, e)
      | inr (inr (inr (inr (inr e)))) ↦ (5, omega arith, e)
    ]

abbrev IsLevel : ℕ → Type 0
IsLevel n = (n ≡ 0) ⊎ ((n ≡ 128) ⊎ ((n ≡ 192) ⊎ (n ≡ 256)))

is_valid_level-IsLevel : (n : ℕ) → is_valid_level n ≡ true → IsLevel n
unfolding is_valid_level
is_valid_level-IsLevel n h = ground arith

and_trues : (a b : Bool) → (a && b && true && true && true) ≡ (a && b)
and_trues true true = refl
and_trues true false = refl
and_trues false b = refl

module _ {D Int : Type 0} (S : SealParms D Int) where
  open S use {poly_modulus_degree, parameters_set, parms_equal, equal}

  -- The degree of parameters that are accepted is a power of two, from 2 ^ 10 to 2 ^ 15, and their
  -- security level is one of the four.
  validate_parameters-bounds :
      (p : Params S)
      → validate_parameters S p ≡ ok tt
      → ((k : ℕ) × (k ≤ 5) × (poly_modulus_degree p.seal_parms ≡ 2 ^ (10 + k)))
        × IsLevel p.security_level
  unfolding validate_parameters
  validate_parameters-bounds p valid =
      let n = poly_modulus_degree p.seal_parms in
      let level = p.security_level in
      let set = (do
        l ← seal_security_level level
        require (parameters_set p.seal_parms l) check_failed) in
      let (a, h1) =
        require-true (str_eq p.scheme_name "HE_SEAL") check_failed
          (require (is_valid_degree n) check_failed
            >> (require (is_valid_level level) check_failed >> set))
          valid in
      let (b, h2) =
        require-true (is_valid_degree n) check_failed
          (require (is_valid_level level) check_failed >> set) h1 in
      let (c, h3) = require-true (is_valid_level level) check_failed set h2 in
      (is_valid_degree-power n b, is_valid_level-IsLevel level c)

  pub validate_parameters-level :
      (p : Params S) → validate_parameters S p ≡ ok tt → p.security_level < 256 ^ 8
  validate_parameters-level p valid = let h = (validate_parameters-bounds p valid).1 in ground arith

  -- Where a scale equals itself, parameters have the same context just when their schemes and their
  -- SEAL parameters are equal, whatever their scales, packings and security levels are.
  pub same_context_lem :
      (p1 p2 : Params S)
      → equal p2.scale p2.scale ≡ true
      → same_context S p1 p2
        ≡ str_eq p2.scheme_name p1.scheme_name && parms_equal p2.seal_parms p1.seal_parms
  unfolding same_context params_equal
  same_context_lem p1 p2 h =
      rw (h, ==_refl p2.security_level, eqb_refl p2.complex_packing)
        (and_trues (str_eq p2.scheme_name p1.scheme_name) (parms_equal p2.seal_parms p1.seal_parms))
