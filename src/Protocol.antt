-- ===== src/Protocol.antt =====
-- The messages of src/protos/message.proto that the client and the server exchange, and the calls of
-- `node_to_pb_function` and `json` that name the function that a message is about.
use Prim.Native.String.{String}
use text.Mathlib.Text.{◌==◌ as str_eq}
use he_transformer_research.Base.{ℕ, Option, none, some, List, [], if◌then◌else◌, Result, ◌>>=◌}
use he_transformer_research.Json.{Json}
use he_transformer_research.Tensor.Chunks.{PbTensor}

pub data MessageType : Type 0 where
  unknown request response : MessageType

-- `pb::TCPMessage`; a field that is not set is `none`. Keys and parameters are bytes.
pub record PbMessage (D Bytes : Type 0) : Type 0 where
  pub type : MessageType
  pub function : Option String
  pub encryption_parameters : Option (List ℕ)
  pub eval_key : Option (List ℕ)
  pub public_key : Option (List ℕ)
  pub he_tensors : List (PbTensor D Bytes)

-- The names that the two sides compare `js.at("function")` with.
pub data Name : Type 0 where
  parameter relu bounded_relu max_pool : Name

-- The chain of comparisons on the side of the client; the server does not know `"Parameter"`.
unfoldable pub request_name : String → Option Name
request_name name =
    if str_eq name "Parameter"
    then some parameter
    else (if str_eq name "Relu"
        then some relu
        else (if str_eq name "BoundedRelu"
            then some bounded_relu
            else (if str_eq name "MaxPool" then some max_pool else none)))

unfoldable pub result_name : String → Option Name
result_name name =
    if str_eq name "Relu"
    then some relu
    else (if str_eq name "BoundedRelu"
        then some bounded_relu
        else (if str_eq name "MaxPool" then some max_pool else none))

module _ {D Int : Type 0} (J : Json D Int) where
  open J use {parse, at_key, to_text}

  -- `json::parse(function)` and `js.at("function")` as a string.
  unfoldable pub function_name : String → Result String
  function_name function = do js ← parse function; name ← at_key js "function"; to_text name

-- A message of a type, with nothing else set.
abbrev pub bare : {D Bytes : Type 0} → MessageType → PbMessage D Bytes
bare type = record {
  type = type;
  function = none;
  encryption_parameters = none;
  eval_key = none;
  public_key = none;
  he_tensors = [];
}
