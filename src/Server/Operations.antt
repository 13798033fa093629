-- ===== src/Server/Operations.antt =====
-- What the server sends: the requests of `handle_server_relu_op` and `handle_server_max_pool_op`, and
-- `send_client_results`, of src/seal/he_seal_executable.cpp, with `node_to_pb_function` of
-- src/he_util.cpp. Where the code waits for the client, an operation ends: what comes after the wait
-- is `finish_relu` and `finish_max_pool`. The build has no ABY.
pub mod Results
use Prim.Native.String.{String}
use he_transformer_research.Base.{
  ℕ, suc, ◌+◌, Bool, true, false, Option, none, some, List, [], ◌∷◌, ◌++◌, length, get_elem?, ltb,
  ◌==◌, if◌then◌else◌, Result, ok, err, check_failed, undefined, require, deref,
}
use he_transformer_research.HeUtil.{ElementType}
use he_transformer_research.Backend.{Backend}
use he_transformer_research.Machine.{HeType, M, lift, plaintext_packing, ◌>>=◌, ◌>>◌}
use he_transformer_research.Machine.Objects.{place, collect}
use he_transformer_research.Machine.Wire.{PbHeType}
use he_transformer_research.Cipher.Match.{match_to_smallest_chain_index}
use he_transformer_research.Scalar.Plain.{scalar_relu_plain, scalar_bounded_relu_plain}
use he_transformer_research.Tensor.{Ngraph, Tensor}
use he_transformer_research.Tensor.Io.{new_tensor}
use he_transformer_research.Tensor.Chunks.{PbTensor, write_to_pb_tensors}
use he_transformer_research.Protocol.{PbMessage, request, response, bare}
use he_transformer_research.Server.{Server, Entry, str, number, ReluState, write_message}
use he_transformer_research.Server.Relu.{batch_loop, unknown_elements, start_relu}

-- The nodes that have a bound, and those that have not.
pub data Rectifier (D : Type 0) : Type 0 where
  relu : Rectifier D
  bounded_relu : D → Rectifier D

module _ (B : Backend) (ng : Ngraph) (byte_size : PbHeType B.D B.Bytes → ℕ) (float_quotient : ℕ → ℕ)
    (dump : List (String × Entry B.D) → String) where
  open B use {D, Bytes}

  -- `enable_gc` and `num_aby_parties` are `bool_to_string(…)` and `std::to_string(…)` of the
  -- backend's settings.
  pub node_to_pb_function : Rectifier D → String → String → String
  node_to_pb_function relu enable_gc num_aby_parties = dump (
      ("function", str "Relu")
      ∷ ("enable_gc", str enable_gc)
      ∷ ("num_aby_parties", str num_aby_parties)
      ∷ [])
  node_to_pb_function (bounded_relu alpha) enable_gc num_aby_parties = dump (
      ("function", str "BoundedRelu")
      ∷ ("bound", number alpha)
      ∷ ("enable_gc", str enable_gc)
      ∷ ("num_aby_parties", str num_aby_parties)
      ∷ [])

  rectifier_plain : Rectifier D → List D → List D
  rectifier_plain relu = scalar_relu_plain B
  rectifier_plain (bounded_relu alpha) = scalar_bounded_relu_plain B alpha

  pub send_requests : String → List (PbTensor D Bytes) → Server D Bytes → Server D Bytes
  send_requests function [] s = s
  send_requests function (pb ∷ pbs) s =
      let message = record (bare request) { function = some function; he_tensors = pb ∷ [] } in
      send_requests function pbs (write_message message s)

  -- `process_unknown_relu_ciphers_batch`
  pub process_batch : Tensor D → String → List (HeType D) → Server D Bytes → M B (Server D Bytes)
  unfolding send_requests
  process_batch arg function batch s = do
    first ← lift B (deref (get_elem? batch 0))
    t ←
        new_tensor B ng arg.element_type (first.batch_size ∷ length batch ∷ []) arg.packed false
          true "external"
    pbs ← write_to_pb_tensors B byte_size float_quotient (record t { m_data = batch })
    lift B (ok (send_requests function pbs s))

  process_batches :
      Tensor D → String → List (List (HeType D)) → Server D Bytes → M B (Server D Bytes)
  unfolding process_batch
  process_batches arg function [] s = lift B (ok s)
  process_batches arg function (batch ∷ batches) s = do
    s' ← process_batch arg function batch s
    process_batches arg function batches s'

  -- `handle_server_relu_op` until it waits; the elements have the addresses from `tmp` on while their
  -- levels are matched.
  unfoldable pub handle_server_relu_op :
      ℕ
      → Rectifier D
      → String
      → String
      → Tensor D
      → Server D Bytes
      → M B (Server D Bytes × Tensor D)
  unfolding node_to_pb_function rectifier_plain process_batches
  handle_server_relu_op tmp node enable_gc num_aby_parties arg s = do
    addresses ← place B tmp arg.m_data
    smallest ← match_to_smallest_chain_index B addresses
    matched ← collect B addresses
    r ← start_relu B (rectifier_plain node) matched s.relu
    unknown ← lift B (unknown_elements matched r.unknown_relu_idx)
    let arg' = record arg { m_data = matched }
    s' ←
        process_batches arg' (node_to_pb_function node enable_gc num_aby_parties)
          (batch_loop 1000 [] unknown) (record s { relu = r })
    lift B (ok (s', arg'))

  batch_of : List (HeType D) → List ℕ → Result (List (HeType D))
  batch_of arg [] = ok []
  batch_of arg (i ∷ is) = elim (get_elem? arg i) [
    | none ↦ err undefined
    | some h ↦ elim (batch_of arg is) [ err e ↦ err e | ok hs ↦ ok (h ∷ hs) ]
  ]

  -- One turn of the loop of `handle_server_max_pool_op`, until it waits for the maximum.
  unfoldable pub request_max_pool : Tensor D → List ℕ → Server D Bytes → M B (Server D Bytes)
  unfolding batch_of
  request_max_pool arg maximize_list s = do
    batch ← lift B (batch_of arg.m_data maximize_list)
    lift B (require (ltb 0 (length batch)) check_failed)
    first ← lift B (deref (get_elem? batch 0))
    t ←
        new_tensor B ng arg.element_type (first.batch_size ∷ length batch ∷ [])
          (plaintext_packing first) first.complex_packing true "external"
    pbs ← write_to_pb_tensors B byte_size float_quotient (record t { m_data = batch })
    lift B (require (length pbs == 1) check_failed)
    lift B (ok (send_requests (dump (("function", str "MaxPool") ∷ [])) pbs s))

  -- After the wait: the turn is over, once the maximum is there.
  unfoldable pub finish_max_pool : Server D Bytes → Option (Server D Bytes)
  finish_max_pool s = if s.max_pool_done then some (record s { max_pool_done = false }) else none

  pub send_results : List (PbTensor D Bytes) → Server D Bytes → Server D Bytes
  send_results [] s = s
  send_results (pb ∷ pbs) s =
      send_results pbs (write_message (record (bare response) { he_tensors = pb ∷ [] }) s)

  send_outputs : List (Tensor D) → Server D Bytes → M B (Server D Bytes)
  unfolding send_results
  send_outputs (t ∷ []) s = do
    pbs ← write_to_pb_tensors B byte_size float_quotient t
    lift B (ok (send_results pbs s))
  send_outputs _ s = lift B (err check_failed)

  -- Until it waits for the session to have written.
  pub send_client_results : Server D Bytes → M B (Server D Bytes)
  unfolding send_outputs
  send_client_results s = send_outputs s.client_outputs s
