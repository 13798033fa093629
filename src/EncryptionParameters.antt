-- ===== src/EncryptionParameters.antt =====
-- `HESealEncryptionParameters` of src/seal/he_seal_encryption_parameters.cpp: their validation, the
-- choice of a scale, comparison, and the bytes that the server sends to the client. SEAL's own
-- parameters and the arithmetic of `double` are a parameter.
pub mod Validation
pub mod Wire
pub mod Config
use Prim.Native.String.{String}
use text.Mathlib.Text.{◌==◌ as str_eq}
use he_transformer_research.Base.{
  ℕ, ◌+◌, ◌-◌, Bool, true, false, ◌&&◌, ◌||◌, Option, List, [], ◌∷◌, length, get_elem?, ltb, ◌==◌,
  eqb, if◌then◌else◌, Result, ok, err, check_failed, undefined, ◌>>=◌, ◌>>◌, require, deref,
}
use he_transformer_research.SealUtil.Words.{Modulus}
use he_transformer_research.Cipher.Rescale.{SecurityLevel, seal_security_level}

-- `seal::EncryptionParameters`, for CKKS, and `CoeffModulus::Create`.
pub record SealParms (D Int : Type 0) : Type 1 where
  pub Parms : Type 0
  pub ckks : Parms
  pub set_poly_modulus_degree : ℕ → Parms → Result Parms
  pub set_coeff_modulus : List Modulus → Parms → Result Parms
  pub poly_modulus_degree : Parms → ℕ
  pub create : ℕ → List Int → Result (List Modulus)
  pub parms_equal : Parms → Parms → Bool
  -- `SEALContext(parms, true, level).parameters_set()`
  pub parameters_set : Parms → SecurityLevel → Bool
  pub int : ℕ → Int
  -- The conversion of a `uint64_t`, and `double`'s operations.
  pub of_u64 : ℕ → D
  pub divide : D → D → D
  pub sqrt : D → D
  pub equal : D → D → Bool

unfoldable pub is_valid_degree : ℕ → Bool
is_valid_degree n =
    (n == 1024) || (n == 2048) || (n == 4096) || (n == 8192) || (n == 16384) || (n == 32768)

unfoldable pub is_valid_level : ℕ → Bool
is_valid_level n = (n == 0) || (n == 128) || (n == 192) || (n == 256)

module _ {D Int : Type 0} (S : SealParms D Int) where
  open S use {
    Parms, ckks, set_poly_modulus_degree, set_coeff_modulus, poly_modulus_degree, create,
    parms_equal, parameters_set, int, of_u64, divide, sqrt, equal,
  }

  pub record Params : Type 0 where
    pub scheme_name : String
    pub seal_parms : Parms
    pub security_level : ℕ
    pub scale : D
    pub complex_packing : Bool

  unfoldable pub validate_parameters : Params → Result (Unit {0})
  unfolding is_valid_degree is_valid_level
  validate_parameters p = do
    require (str_eq p.scheme_name "HE_SEAL") check_failed
    require (is_valid_degree (poly_modulus_degree p.seal_parms)) check_failed
    require (is_valid_level p.security_level) check_failed
    level ← seal_security_level p.security_level
    require (parameters_set p.seal_parms level) check_failed

  -- The constructor from SEAL's parameters.
  pub of_seal_parms : String → Parms → ℕ → D → Bool → Result Params
  of_seal_parms scheme_name parms security_level scale complex_packing = do
    let p : Params = record {
      scheme_name = scheme_name;
      seal_parms = parms;
      security_level = security_level;
      scale = scale;
      complex_packing = complex_packing;
    }
    validate_parameters p
    ok p

  -- The constructor from a degree and the bit sizes of the moduli.
  pub of_degree : String → ℕ → List Int → ℕ → D → Bool → Result Params
  unfolding of_seal_parms
  of_degree scheme_name degree bits security_level scale complex_packing = do
    sized ← set_poly_modulus_degree degree ckks
    coeff_modulus ← create degree bits
    parms ← set_coeff_modulus coeff_modulus sized
    of_seal_parms scheme_name parms security_level scale complex_packing

  -- `1 << 30` as a scale.
  pub default_real_packing_parms : Result Params
  default_real_packing_parms =
      of_degree "HE_SEAL" 1024 (int 30 ∷ int 30 ∷ int 30 ∷ int 30 ∷ int 30 ∷ []) 0
        (of_u64 1073741824) false

  unfoldable pub default_complex_packing_parms : Result Params
  unfolding default_real_packing_parms
  default_complex_packing_parms = do
    p ← default_real_packing_parms
    ok (record p { complex_packing = true })

  -- The value of the modulus before the last, a quotient of the last one, or a root, as there are
  -- many moduli, two or one; `back` of no modulus is undefined.
  unfoldable pub choose_scale : List Modulus → Result D
  choose_scale moduli =
      let n = length moduli in
      let before_last = (do m ← deref (get_elem? moduli (n - 2)); ok (of_u64 (m.value))) in
      let last : Result D = (do m ← deref (get_elem? moduli (n - 1)); ok (of_u64 (m.value))) in
      let of_two = (do v ← last; ok (divide v (of_u64 4096))) in
      let of_one = (do v ← last; ok (sqrt (divide v (of_u64 256)))) in
      if ltb 2 n then before_last else (if ltb 1 n then of_two else of_one)

  -- `operator==`
  pub params_equal : Params → Params → Bool
  params_equal p other =
      str_eq other.scheme_name p.scheme_name
      && parms_equal other.seal_parms p.seal_parms
      && (other.security_level == p.security_level)
      && equal other.scale p.scale
      && eqb other.complex_packing p.complex_packing

  pub same_context : Params → Params → Bool
  unfolding params_equal
  same_context p1 p2 =
      params_equal
        (record p1 {
          complex_packing = p2.complex_packing;
          security_level = p2.security_level;
          scale = p2.scale;
        })
        p2
