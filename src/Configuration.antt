-- ===== src/Configuration.antt =====
-- `set_config` and `update_encryption_parameters` of src/seal/he_seal_backend.cpp, with the
-- annotations of src/he_op_annotations.cpp. The logging is left out, and so is
-- the state after an exception.
pub mod Checked
use Prim.Native.String.{String, find, slice}
use text.Mathlib.Text.{◌==◌ as str_eq}
use he_transformer_research.Base.{
  ℕ, Bool, true, false, not, ◌&&◌, ◌||◌, Option, none, some, List, [], ◌∷◌, if◌then◌else◌, Result,
  ok, err, check_failed, ◌>>=◌, ◌>>◌, require,
}
use he_transformer_research.HeUtil.{string_to_bool, any_of}
use he_transformer_research.Json.{Json}
use he_transformer_research.EncryptionParameters.{SealParms, Params, same_context}
use he_transformer_research.EncryptionParameters.Config.{parse_config_or_use_default}

pub record HeOpAnnotations : Type 0 where
  pub from_client : Bool
  pub encrypted : Bool
  pub packed : Bool

abbrev pub server_plaintext_unpacked_annotation : HeOpAnnotations
server_plaintext_unpacked_annotation = record {
  from_client = false;
  encrypted = false;
  packed = false;
}

-- nGraph's `to_lower` and `split(…, ',')`, and `std::stoi` with the conversion to `size_t`.
pub record Texts : Type 0 where
  pub to_lower : String → String
  pub split : String → List String
  pub to_size : String → Result ℕ

-- `m_config_tensors`, with one entry for a name.
abbrev pub ConfigTensors : Type 0
ConfigTensors = List (String × HeOpAnnotations)

unfoldable pub insert_or_assign : String → HeOpAnnotations → ConfigTensors → ConfigTensors
insert_or_assign name a [] = (name, a) ∷ []
insert_or_assign name a (entry ∷ entries) =
    let rest = insert_or_assign name a entries in
    if str_eq name (entry.0) then (name, a) ∷ entries else entry ∷ rest

unfoldable pub any_config_from_client : ConfigTensors → Bool
any_config_from_client [] = false
any_config_from_client (entry ∷ entries) = (entry.1).from_client || any_config_from_client entries

-- A setting of a tensor, in small letters.
unfoldable pub apply_setting : HeOpAnnotations → String → Result HeOpAnnotations
apply_setting a setting =
    if str_eq setting "client_input"
    then ok (record a { from_client = true })
    else (if str_eq setting "encrypt"
        then ok (record a { encrypted = true })
        else (if str_eq setting "packed"
            then ok (record a { packed = true })
            else (if str_eq setting "" then ok a else err check_failed)))

unfoldable pub apply_settings : HeOpAnnotations → List String → Result HeOpAnnotations
unfolding apply_setting
apply_settings a [] = ok a
apply_settings a (setting ∷ settings) = do a' ← apply_setting a setting; apply_settings a' settings

-- `option.substr(0, option.find(':', 0))`
abbrev pub tensor_name_of : String → String
tensor_name_of option = slice option 0 (find option ":")

module _ {D Int K : Type 0} (S : SealParms D Int) (J : Json D Int) (file : String → Option String)
    (T : Texts) (generate_context : Params S → Result K) where
  open T use {to_lower, split, to_size}

  -- `context` is what `generate_context` makes of the parameters: SEAL's context and keys.
  pub record Settings : Type 0 where
    pub enable_client : Bool
    pub enable_garbled_circuit : Bool
    pub mask_gc_inputs : Bool
    pub mask_gc_outputs : Bool
    pub num_garbled_circuit_threads : ℕ
    pub port : ℕ
    pub encryption_params : Params S
    pub context : K
    pub config_tensors : ConfigTensors

  unfoldable pub update_encryption_parameters : Params S → Settings → Result Settings
  update_encryption_parameters new_parms s =
      let other = (do
        k ← generate_context new_parms
        ok (record s { encryption_params = new_parms; context = k })) in
      if same_context S s.encryption_params new_parms
      then ok (record s { encryption_params = new_parms })
      else other

  -- The option of a tensor.
  unfoldable pub set_tensor : String → String → Settings → Result Settings
  unfolding insert_or_assign apply_settings
  set_tensor option setting s = do
    a ← apply_settings server_plaintext_unpacked_annotation (split (to_lower setting))
    ok (record s { config_tensors = insert_or_assign (tensor_name_of option) a s.config_tensors })

  unfoldable pub set_option : String → String → Settings → Result Settings
  unfolding update_encryption_parameters set_tensor
  set_option option setting s =
      let flag = string_to_bool to_lower (some setting) false in
      let number = to_size setting in
      if str_eq option "enable_client"
      then (flag >>= λ b. ok (record s { enable_client = b || s.enable_client }))
      else (if str_eq option "encryption_parameters"
          then (parse_config_or_use_default S J file (some setting) >>= λ p.
              update_encryption_parameters p s)
          else (if str_eq option "enable_gc"
              then (flag >>= λ b. ok (record s { enable_garbled_circuit = b }))
              else (if str_eq option "num_gc_threads"
                  then (number >>= λ n. ok (record s { num_garbled_circuit_threads = n }))
                  else (if str_eq option "mask_gc_inputs"
                      then (flag >>= λ b. ok (record s { mask_gc_inputs = b }))
                      else (if str_eq option "mask_gc_outputs"
                          then (flag >>= λ b. ok (record s { mask_gc_outputs = b }))
                          else (if str_eq option "port"
                              then (number >>= λ n. ok (record s { port = n }))
                              else set_tensor option setting s))))))

  -- The options in the order of their names.
  unfoldable pub set_options : List (String × String) → Settings → Result Settings
  unfolding set_option
  set_options [] s = ok s
  set_options (entry ∷ entries) s = do s' ← set_option (entry.0) (entry.1) s; set_options entries s'

  -- What follows the loop over the options.
  unfoldable pub check_settings : Settings → Result Settings
  unfolding any_config_from_client
  check_settings s = do
    let gc = s.enable_garbled_circuit && s.enable_client
    require (s.enable_client || not (any_config_from_client s.config_tensors)) check_failed
    ok (record s { enable_garbled_circuit = gc })

  unfoldable pub set_config : List (String × String) → Settings → Result Settings
  unfolding set_options check_settings
  set_config config s = do s' ← set_options config s; check_settings s'
