-- ===== src/Executor/Inputs.antt =====
-- What `HESealExecutable::call` of src/seal/he_seal_executable.cpp does before its loop: the inputs are
-- packed or unpacked, and encrypted, as their annotations say, the annotations are propagated, and the
-- tensors of the parameters and of the results are put in the map.
use he_transformer_research.Base.{
  ℕ, zero, suc, ◌+◌, Bool, false, not, ◌&&◌, Option, none, some, List, [], ◌∷◌, length, get_elem?,
  ltb, eqb, if◌then◌else◌, Result, ok, err, undefined, check_failed, require, deref,
}
use he_transformer_research.Backend.{Backend}
use he_transformer_research.Machine.{HeType, M, lift, new_cell, update, ◌>>=◌, ◌>>◌}
use he_transformer_research.Cipher.Encode.{backend_encrypt}
use he_transformer_research.HeUtil.{ElementType}
use he_transformer_research.Tensor.{
  Ngraph, Tensor, get_batch_size, get_batched_element_count, any_encrypted_data,
}
use he_transformer_research.Tensor.Pack.{pack, unpack}
use he_transformer_research.Configuration.{HeOpAnnotations}
use he_transformer_research.Passes.Annotations.{
  GraphNode, Annotations, he_op_annotation, propagate_he_annotations,
}
use he_transformer_research.Server.{Server, set_batch_size}
use he_transformer_research.Executor.Loop.{insert_tensor}

-- `HEOpAnnotations::from_client(*param)`
abbrev pub is_from_client : Annotations → ℕ → Bool
is_from_client a v = elim (a v) [ none ↦ false | some x ↦ x.from_client ]

module _ (B : Backend) (ng : Ngraph) (enable_client complex_packing : Bool) where
  open B use {D, Bytes, slot_count}

  -- The loop that encrypts the plaintext elements, for so many elements.
  unfoldable pub encrypt_elements : ElementType → ℕ → List (HeType D) → M B (List (HeType D))
  encrypt_elements type zero hs = lift B (ok hs)
  encrypt_elements type (suc n) [] = lift B (err undefined)
  encrypt_elements type (suc n) (h ∷ hs) = do
    let encrypted = do
      c ← lift B (backend_encrypt B h.plain type h.complex_packing)
      p ← new_cell B c
      lift B (ok (record h { cipher = some p; is_plain = false; plain = [] }))
    h' ← if h.is_plain then encrypted else lift B (ok h)
    rest ← encrypt_elements type n hs
    lift B (ok (h' ∷ rest))

  -- A tensor without ciphertexts is packed or unpacked.
  unfoldable pub pack_as : Bool → Tensor D → Result (Tensor D)
  pack_as packed t =
      if any_encrypted_data t.m_data then ok t else (if packed then pack t 0 else unpack t)

  unfoldable pub server_input : HeOpAnnotations → Tensor D → M B (Tensor D)
  unfolding encrypt_elements pack_as
  server_input annotation t = do
    t' ← lift B (pack_as annotation.packed t)
    let encrypted = do
      n ← lift B (get_batched_element_count ng t')
      data' ← encrypt_elements t'.element_type n t'.m_data
      lift B (ok (record t' { m_data = data' }))
    if annotation.encrypted then encrypted else lift B (ok t')

  -- `m_client_inputs[input_idx]`
  unfoldable pub client_input : List (Option (Tensor D)) → ℕ → M B (Tensor D)
  client_input client_inputs input_idx = do
    lift B (require (ltb input_idx (length client_inputs)) check_failed)
    input ← lift B (deref (get_elem? client_inputs input_idx))
    lift B (deref input)

  -- One input, with the annotations and the server after it; a tensor from the client sets the flag of its
  -- parameter.
  unfoldable pub he_input :
      ℕ
      → ℕ
      → Tensor D
      → Annotations
      → Server D Bytes
      → M B (Tensor D × Annotations × Server D Bytes)
  unfolding client_input server_input
  he_input input_idx param input a s = do
    let from_client : M B (Tensor D × Annotations) = (do
      t ← client_input s.client_inputs input_idx
      x ← lift B (he_op_annotation a param)
      let marked = record x { encrypted = any_encrypted_data t.m_data }
      lift B (ok (t, update a param (some marked))))
    let from_server : M B (Tensor D × Annotations) = (do
      x ← lift B (he_op_annotation a param)
      t ← server_input x input
      lift B (ok (t, a)))
    next ← if enable_client && is_from_client a param then from_client else from_server
    x ← lift B (he_op_annotation (next.1) param)
    lift B (require (eqb (next.0).packed x.packed) check_failed)
    s' ← lift B (
        if (next.0).packed
        then set_batch_size slot_count complex_packing (get_batch_size (next.0)) s
        else ok s)
    lift B (ok (next.0, next.1, s'))

  unfoldable pub he_inputs :
      ℕ
      → List ℕ
      → List (Tensor D)
      → Annotations
      → Server D Bytes
      → M B (List (Tensor D) × Annotations × Server D Bytes)
  unfolding he_input
  he_inputs input_idx params [] a s = lift B (ok ([], a, s))
  he_inputs input_idx [] (input ∷ inputs) a s = lift B (err undefined)
  he_inputs input_idx (param ∷ params) (input ∷ inputs) a s = do
    next ← he_input input_idx param input a s
    rest ← he_inputs (input_idx + 1) params inputs (next.1) (next.2)
    lift B (ok (next.0 ∷ rest.0, rest.1, rest.2))

  -- The output tensors of the parameters, all in one list, with the inputs in order.
  unfoldable pub map_parameters :
      List ℕ → List (Tensor D) → List (ℕ × Tensor D) → Result (List (ℕ × Tensor D))
  map_parameters [] inputs map = ok map
  map_parameters (t ∷ tensors) [] map = err undefined
  map_parameters (t ∷ tensors) (x ∷ inputs) map =
      map_parameters tensors inputs (insert_tensor t x map)

  -- A result: its node and its output tensor.
  unfoldable pub map_results :
      List (ℕ × ℕ) → List (Tensor D) → Annotations → List (ℕ × Tensor D) → M B (List (ℕ × Tensor D))
  unfolding pack_as
  map_results [] outputs a map = lift B (ok map)
  map_results (result ∷ results) [] a map = lift B (err undefined)
  map_results (result ∷ results) (output ∷ outputs) a map = do
    output' ← lift B (elim (a (result.0)) [ none ↦ ok output | some x ↦ pack_as x.packed output ])
    map_results results outputs a (insert_tensor (result.1) output' map)

  -- The steps of `call` before its loop: `results` are the nodes of the results, each with its tensor,
  -- and `nodes` is the graph. It ends with the map, the annotations and the server.
  unfoldable pub before_loop :
      (ℕ → Bool)
      → List GraphNode
      → List ℕ
      → List ℕ
      → List (ℕ × ℕ)
      → List (Tensor D)
      → List (Tensor D)
      → Annotations
      → Server D Bytes
      → M B (List (ℕ × Tensor D) × Annotations × Server D Bytes)
  unfolding he_inputs map_parameters map_results
  before_loop is_op nodes params param_tensors results outputs server_inputs a s = do
    inputs ← he_inputs 0 params server_inputs a s
    a' ← lift B (propagate_he_annotations is_op nodes (inputs.1))
    lift B (require (not (ltb (length (inputs.0)) (length params))) check_failed)
    parameter_map ← lift B (map_parameters param_tensors (inputs.0) [])
    map ← map_results results outputs a' parameter_map
    lift B (ok (map, a', inputs.2))
