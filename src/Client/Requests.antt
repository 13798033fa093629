-- ===== src/Client/Requests.antt =====
-- The functions that `HESealClient` computes for the server: `handle_relu_request`,
-- `handle_bounded_relu_request` and `handle_max_pool_request` of src/seal/he_seal_client.cpp. The
-- elements of a tensor have the addresses from `tmp` on while a kernel works on them, and the OpenMP
-- loops are modelled in the order of the indices.
use Prim.Native.String.{String}
use he_transformer_research.Base.{
  ℕ, zero, suc, ◌+◌, Bool, true, false, none, some, List, [], ◌∷◌, length, get_elem?, set, Result,
  ok, err, check_failed, deref,
}
use he_transformer_research.HeUtil.{string_to_bool}
use he_transformer_research.Machine.{HeType, M, lift, object_at, put_object, ◌>>=◌, ◌>>◌}
use he_transformer_research.Machine.Objects.{place, collect}
use he_transformer_research.Scalar.Decrypted.{scalar_relu_seal, scalar_bounded_relu_seal}
use he_transformer_research.Reduce.{max_pool_seal}
use he_transformer_research.Tensor.{Tensor}
use he_transformer_research.Tensor.Io.{new_tensor}
use he_transformer_research.Tensor.Chunks.{PbTensor, write_to_pb_tensors}
use he_transformer_research.Tensor.Load.{load_new_tensor}
use he_transformer_research.Protocol.{response}
use he_transformer_research.Client.{write_message}
use he_transformer_research.Client.Environment.{Environment}
use he_transformer_research.Client.Handlers.{Message, Step, one_tensor, has_context}

module _ (E : Environment) (tmp : ℕ) where
  open E use {backend, parms, json, ngraph, coordinates, byte_size, float_quotient, to_lower}
  open backend use {D, Bytes}

  -- `f(data[i], data[i])` for `n` elements from index `i` on; an index past the end is undefined.
  unfoldable pub apply_loop :
      (ℕ → ℕ → M backend (Unit {0})) → ℕ → ℕ → List (HeType D) → M backend (List (HeType D))
  apply_loop f i zero hs = lift backend (ok hs)
  apply_loop f i (suc n) hs = do
    h ← lift backend (deref (get_elem? hs i))
    put_object backend tmp h
    f tmp tmp
    h' ← object_at backend tmp
    apply_loop f (i + 1) n (set hs i h')

  -- `js.at("enable_gc")`, and `js.at("bound")`
  unfoldable pub enable_gc : json.Value → Result Bool
  enable_gc js = elim (json.at_key js "enable_gc") [
    | err e ↦ err e
    | ok v ↦ elim (json.to_text v) [
      | err e ↦ err e
      | ok text ↦ string_to_bool to_lower (some text) false
    ]
  ]

  bound_of : json.Value → Result D
  bound_of js = elim (json.at_key js "bound") [ err e ↦ err e | ok v ↦ json.to_double v ]

  has_function : Message E → Result String
  has_function message = elim message.function [ none ↦ err check_failed | some text ↦ ok text ]

  -- The tensor in one message, which replaces the one that came.
  unfoldable pub respond : Tensor D → Step E
  unfolding one_tensor
  respond t c message = do
    pbs ← write_to_pb_tensors backend byte_size float_quotient t
    pb ← lift backend (one_tensor E pbs)
    let answer : Message E = record message { type = response; he_tensors = pb ∷ [] }
    lift backend (ok (write_message answer c))

  -- The values are taken as they are where garbled circuits are asked for.
  rectify :
      (ℕ → ℕ → M backend (Unit {0})) → Bool → PbTensor D Bytes → Tensor D → M backend (Tensor D)
  unfolding apply_loop
  rectify f true pb t = lift backend (ok t)
  rectify f false pb t = do
    hs ← apply_loop f 0 (length pb.pb_data) t.m_data
    lift backend (ok (record t { m_data = hs }))

  unfoldable pub handle_relu_request : Step E
  unfolding one_tensor has_context has_function enable_gc rectify respond
  handle_relu_request c message = do
    function ← lift backend (has_function message)
    pb ← lift backend (one_tensor E message.he_tensors)
    lift backend (has_context E c)
    t ← load_new_tensor backend ngraph c.encryption_params.complex_packing pb
    js ← lift backend (json.parse function)
    gc ← lift backend (enable_gc js)
    rectified ← rectify (scalar_relu_seal backend) gc pb t
    respond rectified c message

  unfoldable pub handle_bounded_relu_request : Step E
  unfolding one_tensor has_context has_function enable_gc bound_of rectify respond
  handle_bounded_relu_request c message = do
    function ← lift backend (has_function message)
    pb ← lift backend (one_tensor E message.he_tensors)
    js ← lift backend (json.parse function)
    bound ← lift backend (bound_of js)
    lift backend (has_context E c)
    t ← load_new_tensor backend ngraph c.encryption_params.complex_packing pb
    gc ← lift backend (enable_gc js)
    rectified ← rectify (scalar_bounded_relu_seal backend bound) gc pb t
    respond rectified c message

  unfoldable pub handle_max_pool_request : Step E
  unfolding one_tensor has_context has_function respond
  handle_max_pool_request c message = do
    function ← lift backend (has_function message)
    pb ← lift backend (one_tensor E message.he_tensors)
    let cipher_count = length pb.pb_data
    lift backend (has_context E c)
    t ← load_new_tensor backend ngraph c.encryption_params.complex_packing pb
    out ←
        new_tensor backend ngraph t.element_type (c.batch_size ∷ 1 ∷ []) t.packed
          c.encryption_params.complex_packing true "external"
    arg_addresses ← place backend tmp t.m_data
    out_addresses ← place backend (tmp + length t.m_data) out.m_data
    max_pool_seal coordinates backend arg_addresses out_addresses (1 ∷ 1 ∷ cipher_count ∷ [])
        (1 ∷ 1 ∷ 1 ∷ []) (cipher_count ∷ []) (1 ∷ []) (0 ∷ []) (0 ∷ [])
    hs ← collect backend out_addresses
    respond (record out { m_data = hs }) c message
