-- ===== src/EncryptionParameters/Config/Errors.antt =====
-- What a configuration can come to.
use Prim.Native.String.{String}
use text.Mathlib.Text.{◌==◌ as str_eq}
use he_transformer_research.Base.{◌≡◌, Option, Result, ok, err, Error, ngraph_error, undefined, ◌⊎◌}
use he_transformer_research.Json.{Json}
use he_transformer_research.EncryptionParameters.{SealParms, Params, validate_parameters}

-- A result is a value with a property, or an error.
data OkSatisfies {A : Type 0} (P : A → Type 0) : Result A → Type 0 where
  value : (a : A) → P a → OkSatisfies P (ok a)
  error : (e : Error) → OkSatisfies P (err e)

module _ {D Int : Type 0} (S : SealParms D Int) where
  abbrev IsValid : Params S → Type 0
  IsValid p = validate_parameters S p ≡ ok tt

module _ {D Int : Type 0} (S : SealParms D Int) (J : Json D Int)
    (file : String → Option String) where
  abbrev pub Outcome : Result (Params S) → Type 0
  Outcome r =
      ((p : Params S) × (r ≡ ok p) × (validate_parameters S p ≡ ok tt))
      ⊎ ((r ≡ err ngraph_error) ⊎ (r ≡ err undefined))
