-- ===== src/EncryptionParameters/Wire.antt =====
-- `HESealEncryptionParameters::save` and `load` of src/seal/he_seal_encryption_parameters.cpp, on
-- lists of bytes: 8 for the scale, one for the flag, 8 for the security level, the lowest first, and
-- SEAL's own.
pub mod RoundTrip
use he_transformer_research.Base.{
  ℕ, Bool, true, false, List, [], ◌∷◌, ◌++◌, length, take, drop, leb, ltb, ◌==◌, if◌then◌else◌,
  Result, ok, err, undefined, ◌>>=◌, ◌>>◌, require,
}
use he_transformer_research.Tcp.Message.{le_bytes, of_le_bytes}
use he_transformer_research.EncryptionParameters.{SealParms, Params, of_seal_parms}

-- The object representation of a `double`, and SEAL's `save` and `load`.
pub record ByteForms {D Int : Type 0} (S : SealParms D Int) : Type 0 where
  pub double_bytes : D → List ℕ
  pub of_double_bytes : List ℕ → D
  pub save_parms : S.Parms → List ℕ
  pub load_parms : List ℕ → Result S.Parms

pub flag_byte : Bool → ℕ
flag_byte true = 1
flag_byte false = 0

-- A stream that ends early leaves a variable unset, and a `bool` with another byte than 0 and 1 is
-- undefined.
pub flag_of_byte : List ℕ → Result Bool
flag_of_byte [] = err undefined
flag_of_byte (b ∷ bs) = require (ltb b 2) undefined >> ok (b == 1)

module _ {D Int : Type 0} (S : SealParms D Int) (W : ByteForms S) where
  open S use {Parms}
  open W use {double_bytes, of_double_bytes, save_parms, load_parms}

  pub save : Params S → List ℕ
  unfolding flag_byte
  save p =
      double_bytes p.scale
      ++ (flag_byte p.complex_packing ∷ le_bytes 8 p.security_level ++ save_parms p.seal_parms)

  pub load : List ℕ → Result (Params S)
  unfolding flag_of_byte
  load stream = do
    require (leb 8 (length stream)) undefined
    let scale = of_double_bytes (take 8 stream)
    let rest = drop 8 stream
    complex_packing ← flag_of_byte rest
    let tail = drop 1 rest
    require (leb 8 (length tail)) undefined
    let security_level = of_le_bytes (take 8 tail)
    parms ← load_parms (drop 8 tail)
    of_seal_parms S "HE_SEAL" parms security_level scale complex_packing
