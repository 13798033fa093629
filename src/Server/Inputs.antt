-- ===== src/Server/Inputs.antt =====
-- The inputs that the client sends: `handle_client_ciphers` of src/seal/he_seal_executable.cpp.
use Prim.Native.String.{String}
use he_transformer_research.Base.{
  ℕ, ◌+◌, Bool, true, false, Option, none, some, List, [], ◌∷◌, get_elem?, set, if◌then◌else◌,
  Result, ok, err, check_failed, undefined, deref,
}
use he_transformer_research.HeUtil.{param_originates_from_name}
use he_transformer_research.Backend.{Backend}
use he_transformer_research.Machine.{M, lift, ◌>>=◌}
use he_transformer_research.Tensor.{Ngraph, Tensor, batch_size, done_loading}
use he_transformer_research.Tensor.Chunks.{PbTensor}
use he_transformer_research.Tensor.Load.{load_from_pb_tensor, load_new_tensor}
use he_transformer_research.Protocol.{PbMessage}
use he_transformer_research.Server.{Parameter, Server, set_batch_size}

-- The first index from `i` on.
unfoldable pub find_matching_parameter_index : List Parameter → String → ℕ → Option ℕ
find_matching_parameter_index [] name i = none
find_matching_parameter_index (p ∷ ps) name i =
    let rest = find_matching_parameter_index ps name (i + 1) in
    if param_originates_from_name p.name p.tags name then some i else rest

-- Every parameter from the client has a tensor that is done; `m_client_inputs` is as long as the
-- parameters are, or is read out of bounds.
unfoldable pub inputs_done : {D : Type 0} → List Parameter → List (Option (Tensor D)) → Result Bool
inputs_done [] inputs = ok true
inputs_done {D} (p ∷ ps) [] = if p.from_client then err undefined else inputs_done {D = D} ps []
inputs_done (p ∷ ps) (input ∷ inputs) =
    let rest = inputs_done ps inputs in
    let loaded : Bool = elim input [ none ↦ false | some t ↦ done_loading t ] in
    if p.from_client then (if loaded then rest else ok false) else rest

one_tensor : {D Bytes : Type 0} → List (PbTensor D Bytes) → Result (PbTensor D Bytes)
one_tensor (pb ∷ []) = ok pb
one_tensor _ = err check_failed

module _ (B : Backend) (ng : Ngraph) (complex_packing : Bool) where
  open B use {D, Bytes, slot_count}

  load_input : Option (Tensor D) → PbTensor D Bytes → M B (Tensor D)
  load_input none pb = load_new_tensor B ng complex_packing pb
  load_input (some t) pb = load_from_pb_tensor B (some t) pb

  unfoldable pub handle_client_ciphers : Server D Bytes → PbMessage D Bytes → M B (Server D Bytes)
  unfolding one_tensor load_input
  handle_client_ciphers s message = do
    pb ← lift B (one_tensor message.he_tensors)
    s' ← lift B (set_batch_size slot_count complex_packing (batch_size pb.shape pb.packed) s)
    idx ← lift B (elim (find_matching_parameter_index s'.parameters pb.name 0) [
      | none ↦ err check_failed
      | some idx ↦ ok idx
    ])
    input ← lift B (deref (get_elem? s'.client_inputs idx))
    t ← load_input input pb
    let inputs = set s'.client_inputs idx (some t)
    done ← lift B (inputs_done s'.parameters inputs)
    let received = if done then true else s'.client_inputs_received
    lift B (ok (record s' { client_inputs = inputs; client_inputs_received = received }))
