-- ===== src/Client/Dispatch.antt =====
-- `HESealClient::handle_message` of src/seal/he_seal_client.cpp.
pub mod Results
use Prim.Native.String.{String}
use he_transformer_research.Base.{
  ℕ, Bool, true, false, Option, none, some, List, [], ◌∷◌, Result, ok, err, check_failed,
}
use he_transformer_research.Machine.{M, lift, ◌>>=◌}
use he_transformer_research.Protocol.{
  PbMessage, MessageType, unknown, request, response, Name, parameter, relu, bounded_relu, max_pool,
  request_name, function_name,
}
use he_transformer_research.Client.{handle_encryption_parameters_response}
use he_transformer_research.Client.Environment.{Environment}
use he_transformer_research.Client.Handlers.{
  State, Message, Step, handle_inference_request, handle_result,
}
use he_transformer_research.Client.Requests.{
  handle_relu_request, handle_bounded_relu_request, handle_max_pool_request,
}

module _ (E : Environment) (tmp : ℕ) where
  open E use {backend, parms, byte_forms, keygen, json}

  pub handle_named : Name → Step E
  handle_named parameter = handle_inference_request E
  handle_named relu = handle_relu_request E tmp
  handle_named bounded_relu = handle_bounded_relu_request E tmp
  handle_named max_pool = handle_max_pool_request E tmp

  -- `NGRAPH_CHECK(pb_msg->has_function(), …)`, and the name of the function.
  pub requested : Option String → Result Name
  requested none = err check_failed
  requested (some function) = elim (function_name json function) [
    | err e ↦ err e
    | ok name ↦ elim (request_name name) [ none ↦ err check_failed | some n ↦ ok n ]
  ]

  unfoldable pub handle_response : Step E
  handle_response c message = elim message.encryption_parameters [
    | some stream ↦
        lift backend (handle_encryption_parameters_response parms byte_forms keygen c message)
    | none ↦ elim message.he_tensors [
      | [] ↦ lift backend (err check_failed)
      | pb ∷ pbs ↦ handle_result E c message
    ]
  ]

  pub handle_request : Step E
  unfolding requested handle_named
  handle_request c message = do
    name ← lift backend (requested message.function)
    handle_named name c message

  unfoldable pub by_type : MessageType → Step E
  by_type response c message = handle_response c message
  by_type request c message = handle_request c message
  by_type unknown c message = lift backend (err check_failed)

  unfoldable pub handle_message : Step E
  unfolding by_type
  handle_message c message = by_type message.type c message
