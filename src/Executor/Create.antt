-- ===== src/Executor/Create.antt =====
-- The tensors that `HESealExecutable::call` of src/seal/he_seal_executable.cpp creates for outputs, by
-- `create_plain_tensor` and `create_cipher_tensor` of src/seal/he_seal_backend.cpp.
pub mod Errors
use Prim.Native.String.{String}
use he_transformer_research.Base.{
  ℕ, zero, suc, ◌+◌, [], ◌∷◌, ◌≡◌, refl, ap, ◌∙◌, Bool, true, false, List, if◌then◌else◌, ok, ◌==◌,
  ◌/◌, replicate, Option-cases, inl, inr,
}
use he_transformer_research.Backend.{Backend}
use he_transformer_research.HeUtil.{ElementType}
use he_transformer_research.Machine.{Mem, M, HeType, update, lift, of_ciphertext, run-bind, ◌>>=◌}
use he_transformer_research.Tensor.{Ngraph, Tensor, pack_shape, unpack_shape, batch_size}
use he_transformer_research.Passes.Annotations.{Annotations, has_he_annotation, he_op_annotation}
use he_transformer_research.Passes.Annotations.Marks.{annotation_of}
use he_transformer_research.Tensor.Io.{new_tensor, tensor_of, empty_ciphertexts}

module _ (B : Backend) (ng : Ngraph) (complex_packing : Bool) where
  open B use {D, Ct, zero_d, empty}

  unfoldable pub create_plain_tensor : ElementType → List ℕ → Bool → String → M B (Tensor D)
  create_plain_tensor element_type shape plaintext_packing name =
      new_tensor B ng element_type shape plaintext_packing complex_packing false name

  unfoldable pub create_cipher_tensor : ElementType → List ℕ → Bool → String → M B (Tensor D)
  create_cipher_tensor element_type shape plaintext_packing name =
      new_tensor B ng element_type shape plaintext_packing complex_packing true name

  -- The tensor that is made for an output of an operation, whose annotation is asked for.
  unfoldable pub create_output :
      Annotations → ℕ → ℕ → ElementType → List ℕ → String → M B (Tensor D)
  unfolding create_plain_tensor create_cipher_tensor
  create_output a node batch_size type shape name = do
    x ← lift B (he_op_annotation a node)
    shape' ← lift B (if x.packed then unpack_shape shape batch_size 0 else ok shape)
    (if x.encrypted
        then create_cipher_tensor type shape' x.packed name
        else create_plain_tensor type shape' x.packed name)

  -- A program that returns, with a value of which `P` holds.
  abbrev pub Returns : {A : Type 0} → (A → Type 0) → M B A → Type 0
  Returns {A} P program = (m : Mem D Ct) → (r : A × Mem D Ct) × (program m ≡ ok r) × P (r.0)

  empty_ciphertexts-Returns :
      (n batch : ℕ) (m : Mem D Ct)
      → (r : List (HeType D) × Mem D Ct) × (empty_ciphertexts B ng n complex_packing batch m ≡ ok r)
  unfolding empty_ciphertexts
  empty_ciphertexts-Returns zero batch m = (_, refl)
  empty_ciphertexts-Returns (suc n) batch m =
      let m1 : Mem D Ct = record m { cell = update m.cell m.next empty; next = m.next + 1 } in
      let (r, e) = empty_ciphertexts-Returns n batch m1 in
      (
        _,
        run-bind (empty_ciphertexts B ng n complex_packing batch)
            (λ hs. lift B (ok (of_ciphertext m.next complex_packing batch ∷ hs))) m1 e,
      )

  abbrev count_of : List ℕ → Bool → ℕ
  count_of shape packed =
      let batch = batch_size shape packed in if batch == 0 then 0 else ng.shape_size shape / batch

  new_tensor-Returns :
      (element_type : ElementType) (shape : List ℕ) (encrypted packed : Bool) (name : String)
      → Returns
          (λ t. t.name ≡ name)
          (new_tensor B ng element_type shape packed complex_packing encrypted name)
  unfolding new_tensor tensor_of pack_shape empty_ciphertexts
  new_tensor-Returns element_type shape false true name m = (_, refl, refl)
  new_tensor-Returns element_type shape false false name m = (_, refl, refl)
  new_tensor-Returns element_type shape true true name m =
      let (r, e) = empty_ciphertexts-Returns (count_of shape true) (batch_size shape true) m in
      (
        _,
        run-bind
            (empty_ciphertexts B ng (count_of shape true) complex_packing (batch_size shape true)) _
            m e,
        refl,
      )
  new_tensor-Returns element_type shape true false name m =
      let (r, e) = empty_ciphertexts-Returns (count_of shape false) (batch_size shape false) m in
      (
        _,
        run-bind
            (empty_ciphertexts B ng (count_of shape false) complex_packing (batch_size shape false))
            _ m e,
        refl,
      )

  shaped-Returns :
      (batch : ℕ) (packed encrypted : Bool) (type : ElementType) (shape : List ℕ) (name : String)
      → Returns
          (λ t. t.name ≡ name)
          (do
            shape' ← lift B (if packed then unpack_shape shape batch 0 else ok shape)
            (if encrypted
                then create_cipher_tensor type shape' packed name
                else create_plain_tensor type shape' packed name))
  unfolding create_plain_tensor create_cipher_tensor unpack_shape
  shaped-Returns batch false true type shape name = new_tensor-Returns type shape true false name
  shaped-Returns batch false false type shape name = new_tensor-Returns type shape false false name
  shaped-Returns batch true true type shape name = new_tensor-Returns type _ true true name
  shaped-Returns batch true false type shape name = new_tensor-Returns type _ false true name

  -- Where the operation has an annotation, its output is made, and has the name that it is given.
  pub create_output-Returns :
      (a : Annotations) (node batch : ℕ) (type : ElementType) (shape : List ℕ) (name : String)
      → has_he_annotation a node ≡ true
      → Returns (λ t. t.name ≡ name) (create_output a node batch type shape name)
  unfolding create_output create_plain_tensor create_cipher_tensor
  create_output-Returns a node batch type shape name has m = elim (Option-cases (a node)) [
    | inl e ↦ cc
    | inr (x, e) ↦
        let (r, made, named) = shaped-Returns batch x.packed x.encrypted type shape name m in
        (
          r,
          run-bind (lift B (he_op_annotation a node)) _ m
                (ap (λ o. lift B o m) (annotation_of a node x e))
              ∙ made,
          named,
        )
  ]
