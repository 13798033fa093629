-- ===== src/EncryptionParameters/Config.antt =====
-- `HESealEncryptionParameters::parse_config_or_use_default` of
-- src/seal/he_seal_encryption_parameters.cpp. Files are a parameter: their text, where there is one.
pub mod Errors
use Prim.Native.String.{String}
use text.Mathlib.Text.{◌==◌ as str_eq}
use he_transformer_research.Base.{
  ℕ, Bool, true, false, Option, none, some, List, [], ◌∷◌, if◌then◌else◌, Result, ok, err, Error,
  ngraph_error, check_failed, undefined, ◌>>=◌, ◌>>◌, require, rethrow,
}
use he_transformer_research.Json.{Json}
use he_transformer_research.EncryptionParameters.{
  SealParms, Params, of_degree, choose_scale, default_real_packing_parms,
}

module _ {D Int : Type 0} (S : SealParms D Int) (J : Json D Int)
    (file : String → Option String) where
  open S use {create}
  open J use {parse, subscript, contains, to_text, to_u64, to_ints, to_double, to_bool}

  -- The scale that is given, or a default one, and the flag, which is false where it is not given.
  unfoldable pub config_scale : J.Value → ℕ → List Int → Result D
  config_scale js degree bits =
      let chosen = (do moduli ← create degree bits; choose_scale S moduli) in
      let given = (do v ← subscript js "scale"; to_double v) in
      if contains js "scale" then given else chosen

  unfoldable pub config_packing : J.Value → Result Bool
  config_packing js =
      let flag = (do v ← subscript js "complex_packing"; to_bool v) in
      if contains js "complex_packing" then flag else ok false

  -- The body of the `try`.
  pub parse_params : String → Result (Params S)
  parse_params text = do
    js ← parse text
    name ← subscript js "scheme_name"
    scheme_name ← to_text name
    require (str_eq scheme_name "HE_SEAL") check_failed
    degree_value ← subscript js "poly_modulus_degree"
    poly_modulus_degree ← to_u64 degree_value
    level_value ← subscript js "security_level"
    security_level ← to_u64 level_value
    bits_value ← subscript js "coeff_modulus"
    coeff_mod_bits ← to_ints bits_value
    scale ← config_scale js poly_modulus_degree coeff_mod_bits
    complex_packing ← config_packing js
    of_degree S scheme_name poly_modulus_degree coeff_mod_bits security_level scale complex_packing

  -- A null `config` is `none`.
  pub parse_config_or_use_default : Option String → Result (Params S)
  unfolding parse_params
  parse_config_or_use_default none = default_real_packing_parms S
  parse_config_or_use_default (some config) =
      let text : String = elim (file config) [ none ↦ config | some contents ↦ contents ] in
      if str_eq config "" then default_real_packing_parms S else rethrow (parse_params text)
