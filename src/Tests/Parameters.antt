-- ===== src/Tests/Parameters.antt =====
-- The theorems on encryption parameters and on maxima at concrete inputs.
use he_transformer_research.Base.{
  ℕ, ◌<◌, ◌≡◌, refl, true, false, List, [], ◌∷◌, All, ltb, ok, arith,
}
use he_transformer_research.Tcp.Message.{le_bytes, of_le_bytes}
use he_transformer_research.EncryptionParameters.{
  Params, is_valid_degree, is_valid_level, validate_parameters,
}
use he_transformer_research.EncryptionParameters.Wire.{save, load}
use he_transformer_research.EncryptionParameters.Wire.RoundTrip.{load-save_roundtrip}
use he_transformer_research.Cipher.Rescale.{seal_security_level}
use he_transformer_research.Machine.{Mem, of_plaintext, update}
use he_transformer_research.Reduce.{max_loop}
use he_transformer_research.Reduce.Bounds.{IsOneOf, max_loop-IsOneOf}
use he_transformer_research.Tests.Toy.{toy, ToyCt}
use he_transformer_research.Tests.Tensors.{line}
use he_transformer_research.Tests.World.{degrees, eight_bytes, empty_store}

abbrev pub chosen : Params degrees
chosen = record {
  scheme_name = "HE_SEAL";
  seal_parms = 2048;
  security_level = 128;
  scale = 5;
  complex_packing = true;
}

abbrev unpacked : Params degrees
unpacked = record chosen { complex_packing = false; security_level = 0 }

pub chosen-valid : validate_parameters degrees chosen ≡ ok tt
unfolding validate_parameters is_valid_degree is_valid_level seal_security_level
chosen-valid = refl

load-save_roundtrip_example : load degrees eight_bytes (save degrees eight_bytes chosen) ≡ ok chosen
unfolding le_bytes of_le_bytes
load-save_roundtrip_example =
    load-save_roundtrip degrees eight_bytes chosen refl chosen-valid refl refl refl

abbrev three_values : Mem ℕ ToyCt
three_values = record empty_store {
  object =
      update (update empty_store.object 4 (of_plaintext (8 ∷ []) false)) 5
        (of_plaintext (3 ∷ []) false);
}

abbrev elements : List (ℕ × ℕ × ℕ)
elements = (0, 4, 8) ∷ (1, 5, 3) ∷ []

less_trans : (a b c : ℕ) → ltb a b ≡ false → ltb b c ≡ false → ltb a c ≡ false
less_trans a b c h h' = ground arith

less_asym : (a b : ℕ) → ltb a b ≡ true → ltb b a ≡ false
less_asym a b h = ground arith

less_irrefl : (a : ℕ) → ltb a a ≡ false
less_irrefl a = ground arith

max_loop-IsOneOf_example :
    (top : ℕ) × (max_loop line toy
        (4 ∷ 5 ∷ [])
        1
        ((0, 0) ∷ (1, 0) ∷ [])
        ((0 ∷ []) ∷ [])
        three_values
      ≡ ok ((top ∷ []) ∷ [], three_values))
    × (ltb top 0 ≡ false)
    × All (λ (e : ℕ × ℕ × ℕ). ltb top (e.2) ≡ false) elements
    × IsOneOf line toy 0 elements top
unfolding of_plaintext
max_loop-IsOneOf_example =
    max_loop-IsOneOf line toy (λ a. a < 100) (λ a b c na nb nc. less_trans a b c)
      (λ a b na nb. less_asym a b) (λ a na. less_irrefl a) (4 ∷ 5 ∷ []) 1 elements 0 three_values
      (omega arith) (omega arith, (omega arith, tt)) ((refl, refl), ((refl, refl), tt))
