-- ===== src/Server.antt =====
-- The part of `HESealExecutable` (src/seal/he_seal_executable.hpp and
-- src/seal/he_seal_executable.cpp) that talks to the client: its state, the keys, and the request for
-- the inputs. `sent` is what was given to `m_session->write_message`, the last message at the end.
pub mod Handshake
pub mod Relu
pub mod Inputs
pub mod Dispatch
pub mod Operations
use Prim.Native.String.{String}
use text.Mathlib.Text.{◌==◌ as str_eq}
use he_transformer_research.Base.{
  ℕ, ◌+◌, ◌*◌, Bool, true, false, not, ◌&&◌, ◌||◌, Option, none, some, List, [], ◌∷◌, ◌++◌, length,
  replicate, ltb, leb, ◌==◌, if◌then◌else◌, Result, ok, err, check_failed, undefined, ◌>>=◌, ◌>>◌,
  require,
}
use he_transformer_research.HeUtil.{PbElementType}
use he_transformer_research.Machine.{HeType}
use he_transformer_research.Tensor.{Tensor}
use he_transformer_research.Tensor.Chunks.{PbTensor}
use he_transformer_research.Protocol.{PbMessage, request, response, bare}

-- A parameter of the function, with the annotations that the code asks for; the provenance tags are
-- in the order of the set that holds them.
pub record Parameter : Type 0 where
  pub name : String
  pub tags : List String
  pub shape : List ℕ
  pub from_client : Bool
  pub plaintext_packed : Bool

-- The elements of a rectifier's output, the indices of those that the client computes, and how many
-- of these are there: `m_relu_data`, `m_unknown_relu_idx` and `m_relu_done_count`.
pub record ReluState (D : Type 0) : Type 0 where
  pub relu_data : List (HeType D)
  pub unknown_relu_idx : List ℕ
  pub relu_done_count : ℕ

pub record Server (D Bytes : Type 0) : Type 0 where
  pub batch_size : ℕ
  pub parameters : List Parameter
  pub result_count : ℕ
  pub is_compiled : Bool
  pub is_setup : Bool
  pub sent_inference_shape : Bool
  pub client_public_key_set : Bool
  pub client_eval_key_set : Bool
  pub public_key : Option (List ℕ)
  pub relin_keys : Option (List ℕ)
  pub client_inputs : List (Option (Tensor D))
  pub client_inputs_received : Bool
  pub client_outputs : List (Tensor D)
  pub relu : ReluState D
  pub max_pool_data : List (HeType D)
  pub max_pool_done : Bool
  pub sent : List (PbMessage D Bytes)

-- An entry of a JSON object that the server writes.
pub data Entry (D : Type 0) : Type 0 where
  str : String → Entry D
  number : D → Entry D

unfoldable pub count_from_client : List Parameter → ℕ
count_from_client [] = 0
count_from_client (p ∷ ps) = (if p.from_client then 1 else 0) + count_from_client ps

module _ {D Bytes : Type 0} where
  pub write_message : PbMessage D Bytes → Server D Bytes → Server D Bytes
  write_message message s = record s { sent = s.sent ++ (message ∷ []) }

  -- The constructor, after its passes: a context without key switching needs no evaluation key.
  unfoldable pub new_server : Bool → List Parameter → ℕ → Server D Bytes
  new_server using_keyswitching parameters result_count = record {
    batch_size = 1;
    parameters = parameters;
    result_count = result_count;
    is_compiled = true;
    is_setup = false;
    sent_inference_shape = false;
    client_public_key_set = false;
    client_eval_key_set = not using_keyswitching;
    public_key = none;
    relin_keys = none;
    client_inputs = [];
    client_inputs_received = false;
    client_outputs = [];
    relu = record { relu_data = []; unknown_relu_idx = []; relu_done_count = 0 };
    max_pool_data = [];
    max_pool_done = false;
    sent = [];
  }

  -- `slot_count` is that of SEAL's encoder.
  unfoldable pub set_batch_size : ℕ → Bool → ℕ → Server D Bytes → Result (Server D Bytes)
  set_batch_size slot_count complex_packing batch_size s = do
    let max_batch_size = if complex_packing then slot_count * 2 else slot_count
    require (leb batch_size max_batch_size) check_failed
    ok (record s { batch_size = batch_size })

  unfoldable pub check_client_supports_function : Server D Bytes → Result (Unit {0})
  unfolding count_from_client
  check_client_supports_function s = do
    require (s.result_count == 1) check_failed
    require (ltb 0 (count_from_client s.parameters)) check_failed

  -- The parameters are saved and sent once the session has started; without ABY.
  unfoldable pub server_setup : List ℕ → Server D Bytes → Result (Server D Bytes)
  unfolding check_client_supports_function write_message
  server_setup saved_parameters s =
      let message = record (bare response) { encryption_parameters = some saved_parameters } in
      let written = record (write_message message s) { is_setup = true } in
      let cleared = record written { client_inputs = replicate (length s.parameters) none } in
      let start =
        check_client_supports_function s >> ok (if s.is_compiled then cleared else written) in
      if s.is_setup then ok s else start

  -- `loads` is SEAL's check of the bytes.
  unfoldable pub load_public_key :
      (List ℕ → Result (Unit {0})) → PbMessage D Bytes → Server D Bytes → Result (Server D Bytes)
  load_public_key loads message s = elim message.public_key [
    | none ↦ err check_failed
    | some key ↦ loads key >> ok (record s { public_key = some key; client_public_key_set = true })
  ]

  unfoldable pub load_eval_key :
      (List ℕ → Result (Unit {0})) → PbMessage D Bytes → Server D Bytes → Result (Server D Bytes)
  load_eval_key loads message s = elim message.eval_key [
    | none ↦ err check_failed
    | some key ↦ loads key >> ok (record s { relin_keys = some key; client_eval_key_set = true })
  ]

  -- A tensor of a request for inputs, which has a shape and a name, and may be packed.
  parameter_tensor : Parameter → PbTensor D Bytes
  parameter_tensor p = record {
    name = elim p.tags [ [] ↦ p.name | tag ∷ tags ↦ tag ];
    shape = p.shape;
    pb_type = PbElementType.undefined;
    packed = p.plaintext_packed;
    offset = 0;
    pb_data = [];
  }

  pub inference_tensors : List Parameter → List (PbTensor D Bytes)
  unfolding parameter_tensor
  inference_tensors [] = []
  inference_tensors (p ∷ ps) =
      let rest = inference_tensors ps in if p.from_client then parameter_tensor p ∷ rest else rest

  -- `dump` is the text of a JSON object.
  unfoldable pub send_inference_shape :
      (List (String × Entry D) → String) → Server D Bytes → Server D Bytes
  unfolding inference_tensors write_message
  send_inference_shape dump s =
      let message = record (bare request) {
        function = some (dump (("function", str "Parameter") ∷ []));
        he_tensors = inference_tensors s.parameters;
      } in
      write_message message (record s { sent_inference_shape = true })
