-- ===== src/Server/Operations/Results.antt =====
-- The result that the server sends is the result that the client has.
use Prim.Native.String.{String}
use mathlib.Core.Path.{subst}
use he_transformer_research.Base.{
  ℕ, suc, ◌+◌, ◌<◌, ◌≤◌, ◌≡◌, sym, ap, ◌∙◌, Bool, none, some, List, [], ◌∷◌, map, length,
  length-map, ok,
}
use he_transformer_research.HeUtil.{PbElementType, pb_type_to_type, type_to_pb_type, type_to_double}
use he_transformer_research.HeUtil.Packing.{pb_type_to_type-type_to_pb_type}
use he_transformer_research.Machine.{Mem}
use he_transformer_research.Machine.{◌>>=◌ as ◌>>=M◌}
use he_transformer_research.Tensor.Io.{write_value}
use he_transformer_research.Tensor.Load.Plain.{sent_value, loaded_tensor}
use he_transformer_research.Tensor.Chunks.Plain.{write_to_pb_tensors-values}
use he_transformer_research.Client.{Keys}
use he_transformer_research.Client.Environment.{Environment}
use he_transformer_research.Client.Handlers.{State}
use he_transformer_research.Client.Handlers.Results.{result_message, finished}
use he_transformer_research.Client.Dispatch.{handle_message}
use he_transformer_research.Client.Dispatch.Results.{handle_message-finished}
use he_transformer_research.Server.{Server, Entry, write_message}
use he_transformer_research.Server.Operations.{send_results, send_outputs, send_client_results}

module _ (E : Environment) (dump : List (String × Entry E.backend.D) → String) where
  open E use {backend, ngraph, byte_size, float_quotient}
  open backend use {D, Ct, Bytes, to_float}

  send_client_results-values :
      (s : Server D Bytes) (name : String) (pb_type : PbElementType) (shape : List ℕ) (cp : Bool)
      (v : D) (vs : List D) (m : Mem D Ct)
      → s.client_outputs ≡ loaded_tensor backend ngraph name pb_type shape cp (v ∷ vs) ∷ []
      → suc (length vs) + 2 ≤ float_quotient (byte_size (sent_value backend cp (to_float v)))
      → send_client_results backend ngraph byte_size float_quotient dump s m
        ≡ ok (
          write_message
              (result_message E name
                (type_to_pb_type (pb_type_to_type pb_type))
                shape
                0
                cp
                (map to_float (v ∷ vs)))
              s,
          m,
        )
  unfolding send_client_results send_outputs send_results
  send_client_results-values s name pb_type shape cp v vs m out fits =
      let t = loaded_tensor backend ngraph name pb_type shape cp (v ∷ vs) in
      let sent =
        write_message
          (result_message E name (type_to_pb_type (pb_type_to_type pb_type)) shape 0 cp
            (map to_float (v ∷ vs)))
          s in
      let written =
        write_to_pb_tensors-values backend byte_size float_quotient ngraph name pb_type shape cp v
          vs m fits in
      let one : send_outputs backend ngraph byte_size float_quotient dump (t ∷ []) s m
          ≡ ok (sent, m) =
        simp (◌>>=M◌, written) in
      subst (λ ts. send_outputs backend ngraph byte_size float_quotient dump ts s m ≡ ok (sent, m))
        (sym out) one

  -- The server sends its output, plaintexts of one value each, as many as its shape has, that fit in one
  -- message, and the client, which has its keys and no result yet, is done when it has taken that message,
  -- with the values as floats, and as the element type stores them. The element type has a positive
  -- size, stores every value, and is read back as a double.
  pub results-roundtrip :
      (tmp : ℕ) (stored : D → D) (s : Server D Bytes) (c : State E) (keys : Keys) (name : String)
      (pb_type : PbElementType) (shape : List ℕ) (cp : Bool) (v : D) (vs : List D) (m : Mem D Ct)
      → s.client_outputs ≡ loaded_tensor backend ngraph name pb_type shape cp (v ∷ vs) ∷ []
      → suc (length vs) + 2 ≤ float_quotient (byte_size (sent_value backend cp (to_float v)))
      → c.result_tensor ≡ none
      → c.context ≡ some keys
      → ngraph.shape_size shape ≡ suc (length vs)
      → 0 < ngraph.type_size (pb_type_to_type pb_type)
      → ((v : D) → write_value backend ngraph (pb_type_to_type pb_type) v ≡ ok (stored v))
      → ((v : D) → type_to_double (pb_type_to_type pb_type) v ≡ ok v)
      → let sent_type = type_to_pb_type (pb_type_to_type pb_type) in
        let values = map to_float (v ∷ vs) in
        let message = result_message E name sent_type shape 0 cp values in
        (send_client_results backend ngraph byte_size float_quotient dump s m
          ≡ ok (write_message message s, m))
        × (handle_message E tmp c message m
            ≡ ok (finished E c name sent_type shape cp values (map stored values), m))
  results-roundtrip tmp stored s c keys name pb_type shape cp v vs m out fits fresh context size
        sized w d =
      let same : pb_type_to_type (type_to_pb_type (pb_type_to_type pb_type))
          ≡ pb_type_to_type pb_type =
        pb_type_to_type-type_to_pb_type (pb_type_to_type pb_type) in
      let sent_type = type_to_pb_type (pb_type_to_type pb_type) in
      let values = map to_float (v ∷ vs) in
      let count : ngraph.shape_size shape ≡ length values =
        size ∙ ap suc (sym (length-map vs to_float)) in
      (
        send_client_results-values s name pb_type shape cp v vs m out fits,
        handle_message-finished E tmp stored c keys name sent_type shape 0 cp values m fresh context
            count (subst (λ t. 0 < ngraph.type_size t) (sym same) sized)
            (λ x. subst (λ t. write_value backend ngraph t x ≡ ok (stored x)) (sym same) (w x))
            (λ x. subst (λ t. type_to_double t x ≡ ok x) (sym same) (d x)),
      )
