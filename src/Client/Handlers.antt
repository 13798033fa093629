-- ===== src/Client/Handlers.antt =====
-- The inputs that `HESealClient` sends, and the results that it takes: `handle_inference_request` and
-- `handle_result` of src/seal/he_seal_client.cpp.
pub mod Results
use Prim.Native.String.{String}
use text.Mathlib.Text.{◌==◌ as str_eq}
use he_transformer_research.Base.{
  ℕ, zero, suc, ◌+◌, ◌*◌, Bool, true, false, ◌||◌, Option, none, some, List, [], ◌∷◌, ◌++◌, length,
  get_elem?, set, replicate, ltb, ◌==◌, if◌then◌else◌, Result, ok, err, check_failed, undefined,
  require, deref,
}
use he_transformer_research.HeUtil.{ElementType, string_to_bool, type_to_double}
use he_transformer_research.Machine.{HeType, M, lift, object_at, put_object, ◌>>=◌, ◌>>◌}
use he_transformer_research.Scalar.Decrypted.{scalar_relu_seal, scalar_bounded_relu_seal}
use he_transformer_research.Reduce.{max_pool_seal}
use he_transformer_research.Tensor.{Tensor, pack_shape, unpack_shape, get_batch_size, done_loading}
use he_transformer_research.Tensor.Io.{new_tensor, write, read}
use he_transformer_research.Tensor.Chunks.{PbTensor, write_to_pb_tensors}
use he_transformer_research.Tensor.Load.{load_from_pb_tensor, load_new_tensor}
use he_transformer_research.Protocol.{PbMessage, request, response, bare}
use he_transformer_research.Client.{Client, write_message, close_connection}
use he_transformer_research.Client.Environment.{Environment}

module _ (E : Environment) where
  open E use {backend, parms, json, ngraph, coordinates, byte_size, float_quotient, to_lower}
  open backend use {D, Bytes, zero_d}

  abbrev pub State : Type 0
  State = Client parms Bytes

  abbrev pub Message : Type 0
  Message = PbMessage D Bytes

  abbrev pub Step : Type 0
  Step = State → Message → M backend State

  find_config : List (String × (String × List D)) → String → Option (String × List D)
  find_config [] name = none
  find_config (entry ∷ entries) name =
      if str_eq (entry.0) name then some (entry.1) else find_config entries name

  -- The one tensor of a message.
  unfoldable pub one_tensor : List (PbTensor D Bytes) → Result (PbTensor D Bytes)
  one_tensor (pb ∷ []) = ok pb
  one_tensor _ = err check_failed

  -- The pointers to the SEAL objects are not null.
  unfoldable pub has_context : State → Result (Unit {0})
  has_context c = elim c.context [ none ↦ err undefined | some keys ↦ ok tt ]

  unfoldable pub send_inputs : List (PbTensor D Bytes) → State → State
  send_inputs [] c = c
  send_inputs (pb ∷ pbs) c =
      send_inputs pbs (write_message (record (bare request) { he_tensors = pb ∷ [] }) c)

  unfoldable pub handle_inference_request : Step
  unfolding find_config one_tensor has_context send_inputs
  handle_inference_request c message = do
    pb ← lift backend (one_tensor message.he_tensors)
    lift backend (require (length c.input_config == 1) check_failed)
    input ←
        lift backend
          (elim (find_config c.input_config pb.name) [ none ↦ err check_failed | some i ↦ ok i ])
    let config = input.0
    lift backend (require (str_eq config "encrypt" || str_eq config "plain") check_failed)
    packed_shape ← lift backend (pack_shape pb.shape 0)
    let parameter_size = ngraph.shape_size packed_shape
    lift backend (require (length (input.1) == parameter_size * c.batch_size) check_failed)
    shape ← lift backend (unpack_shape pb.shape c.batch_size 0)
    lift backend (has_context c)
    t ←
        new_tensor backend ngraph ElementType.f64 shape pb.packed
          c.encryption_params.complex_packing (str_eq config "encrypt") pb.name
    written ← write backend ngraph t (input.1) (parameter_size * 8 * c.batch_size)
    pbs ← write_to_pb_tensors backend byte_size float_quotient written
    lift backend (ok (send_inputs pbs c))

  -- The values as doubles.
  to_doubles : ElementType → List D → M backend (List D)
  to_doubles element_type [] = lift backend (ok [])
  to_doubles element_type (v ∷ vs) = do
    d ← lift backend (type_to_double element_type v)
    ds ← to_doubles element_type vs
    lift backend (ok (d ∷ ds))

  -- What is done once the whole result is there; the memory is read before it is written, so that
  -- its first values do not matter.
  unfoldable pub take_results : State → Tensor D → M backend State
  unfolding to_doubles
  take_results c t = do
    let data_size = length t.m_data * get_batch_size t
    let num_bytes = data_size * ngraph.type_size t.element_type
    values ← read backend ngraph t (replicate data_size zero_d) num_bytes
    results ← to_doubles t.element_type values
    lift backend (ok (close_connection (record c { results = results })))

  unfoldable pub handle_result : Step
  unfolding one_tensor has_context take_results
  handle_result c message = do
    pb ← lift backend (one_tensor message.he_tensors)
    let fresh : M backend (Tensor D) = (do
      lift backend (has_context c)
      load_new_tensor backend ngraph c.encryption_params.complex_packing pb)
    let next : M backend (Tensor D) = load_from_pb_tensor backend c.result_tensor pb
    t ← (elim c.result_tensor [ none ↦ fresh | some t ↦ next ])
    let c' = record c { result_tensor = some t }
    if done_loading t then take_results c' t else lift backend (ok c')
