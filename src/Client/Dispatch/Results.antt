-- ===== src/Client/Dispatch/Results.antt =====
-- A response that brings the whole result.
use Prim.Native.String.{String}
use he_transformer_research.Base.{ℕ, ◌<◌, ◌≡◌, Bool, none, some, List, map, length, ok}
use he_transformer_research.HeUtil.{PbElementType, pb_type_to_type, type_to_double}
use he_transformer_research.Machine.{Mem}
use he_transformer_research.Tensor.Io.{write_value}
use he_transformer_research.Client.{Keys}
use he_transformer_research.Client.Environment.{Environment}
use he_transformer_research.Client.Handlers.{State}
use he_transformer_research.Client.Handlers.Results.{result_message, finished, handle_result-values}
use he_transformer_research.Client.Dispatch.{handle_response, by_type, handle_message}

module _ (E : Environment) where
  open E use {backend, ngraph}
  open backend use {D, Ct}

  -- A client that has its keys and no result yet takes a response of plaintexts, as many as the shape
  -- of the tensor has, that are not packed: the results are the values as the element type stores
  -- them, the connection is closed, and the client is done. The element type is one that is stored and
  -- read back as a double.
  pub handle_message-finished :
      (tmp : ℕ) (stored : D → D) (c : State E) (keys : Keys) (name : String)
      (pb_type : PbElementType) (shape : List ℕ) (offset : ℕ) (cp : Bool) (vs : List D)
      (m : Mem D Ct)
      → c.result_tensor ≡ none
      → c.context ≡ some keys
      → ngraph.shape_size shape ≡ length vs
      → 0 < ngraph.type_size (pb_type_to_type pb_type)
      → ((v : D) → write_value backend ngraph (pb_type_to_type pb_type) v ≡ ok (stored v))
      → ((v : D) → type_to_double (pb_type_to_type pb_type) v ≡ ok v)
      → handle_message E tmp c (result_message E name pb_type shape offset cp vs) m
        ≡ ok (finished E c name pb_type shape cp vs (map stored vs), m)
  unfolding handle_message by_type handle_response
  handle_message-finished tmp stored c keys name pb_type shape offset cp vs m =
      handle_result-values E stored c keys name pb_type shape offset cp vs m
