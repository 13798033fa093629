-- ===== src/Tests/Sessions.antt =====
-- The theorems on the client and the server at concrete inputs.
use he_transformer_research.Base.{
  ℕ, resize, zip_with, elem, if◌then◌else◌, ◌≡◌, refl, true, false, none, some, List, [], ◌∷◌, ◌++◌,
  All, ok, arith,
}
use he_transformer_research.HeUtil.{
  ElementType, PbElementType, type_to_pb_type, pb_type_to_type, type_to_double,
}
use he_transformer_research.Machine.{Mem, HeType, of_plaintext, of_ciphertext}
use he_transformer_research.Tensor.Io.{write_value}
use he_transformer_research.Tensor.Load.Plain.{loaded_tensor}
use he_transformer_research.Protocol.{PbMessage}
use he_transformer_research.Client.{keys_message}
use he_transformer_research.Client.Handlers.{State}
use he_transformer_research.Client.Handlers.Results.{result_message, finished}
use he_transformer_research.Client.Dispatch.{handle_message}
use he_transformer_research.Client.Dispatch.Results.{handle_message-finished}
use he_transformer_research.Server.{
  ReluState, Server, Parameter, write_message, new_server, server_setup, count_from_client,
}
use he_transformer_research.Server.Dispatch.{handle_message as server_handles}
use he_transformer_research.Server.Handshake.Whole.{
  keys_of, parameters_message, inputs_request, handshake-asks,
}
use he_transformer_research.Cipher.Rescale.{tc128, seal_security_level}
use he_transformer_research.EncryptionParameters.Wire.{save}
use he_transformer_research.Tcp.Message.{le_bytes, of_le_bytes}
use he_transformer_research.Tests.Parameters.{chosen, chosen-valid}
use he_transformer_research.Server.Relu.{batch_loop}
use he_transformer_research.Server.Relu.Batches.{IsBatch, batch_loop-in_order}
use he_transformer_research.Server.Relu.Pointwise.{
  concat, ciphertexts, ciphertext_indices, rectified, released, run_relu, run_relu-rectified,
}
use he_transformer_research.Server.Operations.{send_client_results}
use he_transformer_research.Server.Operations.Results.{results-roundtrip}
use he_transformer_research.Tests.Toy.{toy, ToyCt}
use he_transformer_research.Tests.World.{
  degrees, eight_bytes, keygen, no_json, world, empty_store, two_keys, ready,
}

f64_stored : (v : ℕ) → write_value toy (world.ngraph) ElementType.f64 v ≡ ok v
unfolding write_value
f64_stored v = refl

f64_double : (v : ℕ) → type_to_double ElementType.f64 v ≡ ok v
unfolding type_to_double
f64_double v = refl

handle_message-finished_example :
    handle_message world 0 ready
      (result_message world "y" PbElementType.f64 (2 ∷ []) 0 false (5 ∷ 6 ∷ []))
      empty_store
    ≡ ok (
      finished world ready "y" PbElementType.f64 (2 ∷ []) false (5 ∷ 6 ∷ []) (5 ∷ 6 ∷ []),
      empty_store,
    )
unfolding pb_type_to_type
handle_message-finished_example =
    handle_message-finished world 0 (λ v. v) ready two_keys "y" PbElementType.f64 (2 ∷ []) 0 false
      (5 ∷ 6 ∷ []) empty_store refl refl refl (omega arith) f64_stored f64_double

abbrev input : Parameter
input = record {
  name = "x";
  tags = [];
  shape = 2 ∷ [];
  from_client = true;
  plaintext_packed = false;
}

abbrev serving : Server ℕ ToyCt
serving = record {
  batch_size = 1;
  parameters = input ∷ [];
  result_count = 1;
  is_compiled = true;
  is_setup = true;
  sent_inference_shape = false;
  client_public_key_set = false;
  client_eval_key_set = false;
  public_key = none;
  relin_keys = none;
  client_inputs = none ∷ [];
  client_inputs_received = false;
  client_outputs =
      loaded_tensor toy world.ngraph "y" PbElementType.f64 (2 ∷ []) false (5 ∷ 6 ∷ []) ∷ [];
  relu = record { relu_data = []; unknown_relu_idx = []; relu_done_count = 0 };
  max_pool_data = [];
  max_pool_done = false;
  sent = [];
}

handshake-asks_example :
    let keys : PbMessage ℕ ToyCt =
      keys_message degrees eight_bytes keygen (keys_of degrees eight_bytes keygen chosen tc128) in
    let offer : PbMessage ℕ ToyCt = parameters_message degrees eight_bytes chosen in
    (s1 : Server ℕ ToyCt) × (c' : State world) × (s2 : Server ℕ ToyCt) × (server_setup
        (save degrees eight_bytes chosen)
        (new_server true (input ∷ []) 1)
      ≡ ok s1)
    × (s1.sent ≡ offer ∷ [])
    × (handle_message world 0 ready offer empty_store ≡ ok (c', empty_store))
    × (c'.sent ≡ ready.sent ++ (keys ∷ []))
    × (server_handles toy world.ngraph no_json true
          (λ key. ok tt)
          (λ entries. "{}")
          s1
          keys
          empty_store
        ≡ ok (s2, empty_store))
    × (s2.sent ≡ offer ∷ inputs_request (λ entries. "{}") (input ∷ []) ∷ [])
unfolding seal_security_level le_bytes of_le_bytes count_from_client
handshake-asks_example =
    handshake-asks world true (λ key. ok tt) (λ entries. "{}") 0 ready chosen tc128 (input ∷ [])
      empty_store refl chosen-valid refl refl refl refl refl refl refl

results-roundtrip_example :
    (send_client_results toy world.ngraph world.byte_size world.float_quotient
        (λ entries. "{}")
        serving
        empty_store
      ≡ ok (
        write_message
            (result_message world "y" PbElementType.f64 (2 ∷ []) 0 false (5 ∷ 6 ∷ []))
            serving,
        empty_store,
      ))
    × (handle_message world 0 ready
          (result_message world "y" PbElementType.f64 (2 ∷ []) 0 false (5 ∷ 6 ∷ []))
          empty_store
        ≡ ok (
          finished world ready "y" PbElementType.f64 (2 ∷ []) false (5 ∷ 6 ∷ []) (5 ∷ 6 ∷ []),
          empty_store,
        ))
unfolding pb_type_to_type type_to_pb_type
results-roundtrip_example =
    results-roundtrip world (λ entries. "{}") 0 (λ v. v) serving ready two_keys "y"
      PbElementType.f64 (2 ∷ []) false 5 (6 ∷ []) empty_store refl (omega arith) refl refl refl
      (omega arith) f64_stored f64_double

abbrev mixed : List (HeType ℕ)
mixed = of_plaintext (3 ∷ []) false ∷ of_ciphertext 0 false 1 ∷ of_ciphertext 1 false 1 ∷ []

abbrev flagged : HeType ℕ → HeType ℕ
flagged h = record h { complex_packing = true }

abbrev answers : List (List (HeType ℕ))
answers = (flagged (of_ciphertext 0 false 1) ∷ []) ∷ (flagged (of_ciphertext 1 false 1) ∷ []) ∷ []

-- An earlier operation has left a ciphertext in the place of the plaintext.
abbrev left : ReluState ℕ
left = record {
  relu_data = of_ciphertext 7 true 1 ∷ [];
  unknown_relu_idx = 0 ∷ [];
  relu_done_count = 0;
}

run_relu-rectified_example :
    let olds = resize 3 (of_plaintext [] false) left.relu_data in
    let out = zip_with (rectified (λ vs. vs) flagged) olds mixed in
    (m' : Mem ℕ ToyCt) × (run_relu toy (λ vs. vs) left mixed answers empty_store
      ≡ ok (
        some (out, record { relu_data = out; unknown_relu_idx = 1 ∷ 2 ∷ []; relu_done_count = 0 }),
        m',
      ))
    × (m'.object ≡ empty_store.object)
    × ((q : ℕ)
        → m'.cell q ≡ (if elem q (released olds mixed) then toy.empty else empty_store.cell q))
unfolding of_plaintext of_ciphertext concat ciphertexts ciphertext_indices
run_relu-rectified_example =
    run_relu-rectified toy (λ vs. vs) flagged left mixed answers empty_store refl refl

batch_loop-in_order_example :
    (concat (batch_loop 2 [] mixed) ≡ mixed) × All (IsBatch 2) (batch_loop 2 [] mixed)
batch_loop-in_order_example = batch_loop-in_order 2 mixed (omega arith)
