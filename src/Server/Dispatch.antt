-- ===== src/Server/Dispatch.antt =====
-- `HESealExecutable::handle_message`, `handle_relu_result`, `handle_bounded_relu_result` and
-- `handle_max_pool_result` of src/seal/he_seal_executable.cpp, in the build without ABY.
use Prim.Native.String.{String}
use he_transformer_research.Base.{
  ℕ, Bool, true, Option, none, some, List, [], ◌∷◌, ◌++◌, length, get_elem?, take, ◌==◌, Result, ok,
  err, check_failed, require, deref,
}
use he_transformer_research.Backend.{Backend}
use he_transformer_research.Json.{Json}
use he_transformer_research.Machine.{M, lift, ◌>>=◌, ◌>>◌}
use he_transformer_research.Tensor.{Ngraph}
use he_transformer_research.Tensor.Chunks.{PbTensor}
use he_transformer_research.Tensor.Load.{load_new_tensor}
use he_transformer_research.Protocol.{
  PbMessage, MessageType, unknown, request, response, Name, parameter, relu, bounded_relu, max_pool,
  result_name, function_name,
}
use he_transformer_research.Server.{Server, Entry}
use he_transformer_research.Server.Handshake.{take_keys}
use he_transformer_research.Server.Relu.{store_results}
use he_transformer_research.Server.Inputs.{handle_client_ciphers}

module _ (B : Backend) (ng : Ngraph) {Int : Type 0} (J : Json B.D Int) (complex_packing : Bool)
    (loads : List ℕ → Result (Unit {0})) (dump : List (String × Entry B.D) → String) where
  open B use {D, Bytes}

  abbrev pub Step : Type 0
  Step = Server D Bytes → PbMessage D Bytes → M B (Server D Bytes)

  one_tensor : List (PbTensor D Bytes) → Result (PbTensor D Bytes)
  one_tensor (pb ∷ []) = ok pb
  one_tensor _ = err check_failed

  -- `he_tensor->data(result_idx)` for each element of the message.
  pub handle_relu_result : Step
  unfolding one_tensor
  handle_relu_result s message = do
    pb ← lift B (one_tensor message.he_tensors)
    t ← load_new_tensor B ng complex_packing pb
    r ← lift B (store_results s.relu (take (length pb.pb_data) t.m_data))
    lift B (ok (record s { relu = r }))

  pub handle_bounded_relu_result : Step
  handle_bounded_relu_result = handle_relu_result

  pub handle_max_pool_result : Step
  unfolding one_tensor
  handle_max_pool_result s message = do
    pb ← lift B (one_tensor message.he_tensors)
    lift B (require (length pb.pb_data == 1) check_failed)
    t ← load_new_tensor B ng complex_packing pb
    h ← lift B (deref (get_elem? t.m_data 0))
    lift B (ok (record s { max_pool_data = s.max_pool_data ++ (h ∷ []); max_pool_done = true }))

  handle_result_of : Name → Step
  unfolding handle_relu_result handle_bounded_relu_result handle_max_pool_result
  handle_result_of relu s message = handle_relu_result s message
  handle_result_of bounded_relu s message = handle_bounded_relu_result s message
  handle_result_of max_pool s message = handle_max_pool_result s message
  handle_result_of parameter s message = lift B (ok s)

  pub handle_result : Option String → Step
  unfolding handle_result_of
  handle_result none s message = lift B (ok s)
  handle_result (some function) s message = do
    text ← lift B (function_name J function)
    name ← lift B (elim (result_name text) [ none ↦ err check_failed | some n ↦ ok n ])
    handle_result_of name s message

  by_type : MessageType → Step
  unfolding handle_result
  by_type response s message = do
    s' ← lift B (take_keys loads dump s message)
    handle_result message.function s' message
  by_type request s message = elim message.he_tensors [
    | [] ↦ lift B (ok s)
    | pb ∷ pbs ↦ handle_client_ciphers B ng complex_packing s message
  ]
  by_type unknown s message = lift B (err check_failed)

  unfoldable pub handle_message : Step
  unfolding by_type
  handle_message s message = by_type message.type s message
