-- ===== src/EncryptionParameters/Wire/RoundTrip.antt =====
-- The parameters that the server saves are those that the client loads.
use mathlib.Core.Path.{subst}
use he_transformer_research.Base.{
  ℕ, ◌≡◌, refl, Bool, true, false, List, ◌∷◌, ◌++◌, length, leb, take, drop, length-append, le→leb,
  ok, arith,
}
use he_transformer_research.Tcp.Message.{le_bytes}
use he_transformer_research.Tcp.Message.RoundTrip.{
  length-le_bytes, of_le_bytes-le_bytes, take-head, drop-head,
}
use he_transformer_research.EncryptionParameters.{
  SealParms, Params, validate_parameters, of_seal_parms,
}
use he_transformer_research.EncryptionParameters.Validation.{validate_parameters-level}
use he_transformer_research.EncryptionParameters.Wire.{
  ByteForms, flag_byte, flag_of_byte, save, load,
}

flag_of_byte-flag_byte : (b : Bool) (rest : List ℕ) → flag_of_byte (flag_byte b ∷ rest) ≡ ok b
unfolding flag_of_byte flag_byte
flag_of_byte-flag_byte true rest = refl
flag_of_byte-flag_byte false rest = refl

module _ {D Int : Type 0} (S : SealParms D Int) (W : ByteForms S) where
  open W use {double_bytes, of_double_bytes, save_parms, load_parms}

  stream_parts :
      (d : List ℕ) (b : ℕ) (l s : List ℕ)
      → length d ≡ 8
      → length l ≡ 8
      → let stream = d ++ (b ∷ l ++ s) in
        (leb 8 (length stream) ≡ true)
        × (take 8 stream ≡ d)
        × (drop 8 stream ≡ b ∷ l ++ s)
        × (leb 8 (length (l ++ s)) ≡ true)
        × (take 8 (l ++ s) ≡ l)
        × (drop 8 (l ++ s) ≡ s)
  stream_parts d b l s hd hl = (
    le→leb 8 _ (omega (arith, length-append d (b ∷ l ++ s))),
    take-head d (b ∷ l ++ s) hd,
    drop-head d (b ∷ l ++ s) hd,
    le→leb 8 _ (omega (arith, length-append l s)),
    take-head l s hl,
    drop-head l s hl,
  )

  of_seal_parms-fields :
      (p : Params S)
      → p.scheme_name ≡ "HE_SEAL"
      → validate_parameters S p ≡ ok tt
      → of_seal_parms S "HE_SEAL" p.seal_parms p.security_level p.scale p.complex_packing ≡ ok p
  unfolding of_seal_parms
  of_seal_parms-fields p name valid =
      let own : of_seal_parms S p.scheme_name p.seal_parms p.security_level p.scale
            p.complex_packing
          ≡ ok p =
        rw (valid) refl in
      subst (λ n. of_seal_parms S n p.seal_parms p.security_level p.scale p.complex_packing ≡ ok p)
        name own

  -- Valid parameters are read back from the bytes that they are saved as, for doubles of 8 bytes that
  -- are read back and SEAL parameters that SEAL loads from what it saved.
  pub load-save_roundtrip :
      (p : Params S)
      → p.scheme_name ≡ "HE_SEAL"
      → validate_parameters S p ≡ ok tt
      → length (double_bytes p.scale) ≡ 8
      → of_double_bytes (double_bytes p.scale) ≡ p.scale
      → load_parms (save_parms p.seal_parms) ≡ ok p.seal_parms
      → load S W (save S W p) ≡ ok p
  unfolding load save
  load-save_roundtrip p name valid len inv parms =
      let level = le_bytes 8 p.security_level in
      let (whole, scale, rest, tail, low, high) =
        stream_parts (double_bytes p.scale) (flag_byte p.complex_packing) level
          (save_parms p.seal_parms) len (length-le_bytes 8 p.security_level) in
      let flag = flag_of_byte-flag_byte p.complex_packing (level ++ save_parms p.seal_parms) in
      let read = of_le_bytes-le_bytes 8 p.security_level (validate_parameters-level S p valid) in
      rw (whole, scale, rest, flag, tail, low, high, parms, inv, read)
        (of_seal_parms-fields p name valid)
