-- ===== src/Client.antt =====
-- `HESealClient` of src/seal/he_seal_client.hpp and src/seal/he_seal_client.cpp: its state, and the
-- messages that it writes. `Backend` stands for the SEAL objects made from the parameters that the
-- server sends; the build has no ABY. `results` and `is_done` are read by `get_results`, in another
-- thread, once the latter holds.
pub mod Environment
pub mod Handlers
pub mod Requests
pub mod Dispatch
use Prim.Native.String.{String}
use text.Mathlib.Text.{◌==◌ as str_eq}
use he_transformer_research.Base.{
  ℕ, ◌+◌, Bool, true, false, Option, none, some, List, [], ◌∷◌, ◌++◌, ◌==◌, Result, ok, err,
  check_failed, undefined, ◌>>=◌, ◌>>◌, require,
}
use he_transformer_research.Cipher.Rescale.{SecurityLevel, seal_security_level}
use he_transformer_research.EncryptionParameters.{SealParms, Params, default_real_packing_parms}
use he_transformer_research.EncryptionParameters.Wire.{ByteForms, load}
use he_transformer_research.Tensor.{Tensor}
use he_transformer_research.Protocol.{PbMessage, response, bare}

-- The keys that SEAL makes for a context, as they are saved; the relinearization keys only where the
-- context uses key switching.
pub record KeyGenerator {D Int : Type 0} (S : SealParms D Int) : Type 0 where
  pub public_key : S.Parms → SecurityLevel → List ℕ
  pub using_keyswitching : S.Parms → SecurityLevel → Bool
  pub relin_keys : S.Parms → SecurityLevel → List ℕ

-- What `set_seal_context` makes.
pub record Keys : Type 0 where
  pub public_key : List ℕ
  pub relin_keys : Option (List ℕ)

-- `context` is `none` while the pointers to the SEAL objects are null. `sent` is what was given to
-- `m_tcp_client->write_message`, the last message at the end.
pub record Client {D Int : Type 0} (S : SealParms D Int) (Bytes : Type 0) : Type 0 where
  pub batch_size : ℕ
  pub input_config : List (String × (String × List D))
  pub encryption_params : Params S
  pub context : Option Keys
  pub result_tensor : Option (Tensor D)
  pub results : List D
  pub is_done : Bool
  pub is_closed : Bool
  pub sent : List (PbMessage D Bytes)

module _ {D Int : Type 0} {S : SealParms D Int} {Bytes : Type 0} where
  unfoldable pub write_message : PbMessage D Bytes → Client S Bytes → Client S Bytes
  write_message message c = record c { sent = c.sent ++ (message ∷ []) }

  unfoldable pub close_connection : Client S Bytes → Client S Bytes
  close_connection c = record c { is_closed = true; is_done = true }

module _ {D Int : Type 0} (S : SealParms D Int) (W : ByteForms S) (G : KeyGenerator S)
    {Bytes : Type 0} where
  -- The constructor; `Client supports only one input parameter`.
  unfoldable pub new_client : ℕ → List (String × (String × List D)) → Result (Client S Bytes)
  new_client batch_size (input ∷ []) = do
    params ← default_real_packing_parms S
    ok (record {
      batch_size = batch_size;
      input_config = input ∷ [];
      encryption_params = params;
      context = none;
      result_tensor = none;
      results = [];
      is_done = false;
      is_closed = false;
      sent = [];
    })
  new_client batch_size inputs = err check_failed

  unfoldable pub set_seal_context : Client S Bytes → Result (Client S Bytes)
  set_seal_context c = do
    level ← seal_security_level c.encryption_params.security_level
    let parms = c.encryption_params.seal_parms
    let keys : Keys = record {
      public_key = G.public_key parms level;
      relin_keys = elim (G.using_keyswitching parms level) [
        | true ↦ some (G.relin_keys parms level)
        | false ↦ none
      ];
    }
    ok (record c { context = some keys })

  unfoldable pub keys_message : Keys → PbMessage D Bytes
  keys_message keys = record (bare response) {
    public_key = some keys.public_key;
    eval_key = keys.relin_keys;
  }

  unfoldable pub send_public_and_relin_keys : Client S Bytes → Result (Client S Bytes)
  unfolding write_message keys_message
  send_public_and_relin_keys c = elim c.context [
    | none ↦ err undefined
    | some keys ↦ ok (write_message (keys_message keys) c)
  ]

  unfoldable pub handle_encryption_parameters_response :
      Client S Bytes → PbMessage D Bytes → Result (Client S Bytes)
  unfolding set_seal_context send_public_and_relin_keys
  handle_encryption_parameters_response c message = elim message.encryption_parameters [
    | none ↦ err check_failed
    | some stream ↦ do
      params ← load S W stream
      c' ← set_seal_context (record c { encryption_params = params })
      send_public_and_relin_keys c'
  ]
