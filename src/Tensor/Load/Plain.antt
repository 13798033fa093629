-- ===== src/Tensor/Load/Plain.antt =====
-- A message of plaintexts is loaded as its values.
use he_transformer_research.Base.{
  ℕ, ◌+◌, ◌/◌, ◌<◌, ◌≡◌, refl, sym, ◌∙◌, Bool, true, false, List, [], ◌∷◌, ◌++◌, none, map, length,
  replicate, lt→ltb, length-append, append_one, length-replicate, length-map, set-middle, ok, arith,
}
use Prim.Native.String.{String}
use native.Mathlib.Nat.{div-one}
use he_transformer_research.HeUtil.{PbElementType, pb_type_to_type}
use he_transformer_research.Backend.{Backend}
use he_transformer_research.Machine.{HeType, Mem, of_plaintext}
use he_transformer_research.Machine.{◌>>=◌ as ◌>>=M◌}
use he_transformer_research.Machine.Wire.{PbHeType, load}
use he_transformer_research.Tensor.{Ngraph, Tensor}
use he_transformer_research.Tensor.Bounds.{batch_size-unpacked}
use he_transformer_research.Tensor.Io.{new_tensor}
use he_transformer_research.Tensor.Chunks.{PbTensor}
use he_transformer_research.Tensor.Load.{load_elements, load_new_tensor}

module _ (B : Backend) where
  open B use {D, Ct, Bytes}

  -- A plaintext of one value, as it is sent.
  abbrev pub sent_value : Bool → D → PbHeType D Bytes
  sent_value complex_packing v = record {
    is_plaintext = true;
    plaintext_packing = false;
    complex_packing = complex_packing;
    batch_size = 1;
    plain = v ∷ [];
    ciphertext = none;
  }

  abbrev pub loaded_value : Bool → D → HeType D
  loaded_value complex_packing v = of_plaintext (v ∷ []) complex_packing

  load_elements-values :
      (cp : Bool) (vs : List D) (pre old : List (HeType D)) (i : ℕ) (m : Mem D Ct)
      → i ≡ length pre
      → length old ≡ length vs
      → load_elements B (map (sent_value cp) vs) i (pre ++ old) m
        ≡ ok (pre ++ map (loaded_value cp) vs, m)
  unfolding load_elements load
  load_elements-values cp [] pre [] i m e l = refl
  load_elements-values cp [] pre (h ∷ old) i m e l = absurd (omega (arith, l))
  load_elements-values cp (v ∷ vs) pre [] i m e l = absurd (omega (arith, l))
  load_elements-values cp (v ∷ vs) pre (h ∷ old) i m e l =
      let new = loaded_value cp v in
      let ih =
        load_elements-values cp vs (pre ++ (new ∷ [])) old (i + 1) m
          (omega (arith, e, length-append pre (new ∷ []))) (omega (arith, l)) in
      let moved : load_elements B (map (sent_value cp) vs) (i + 1) (pre ++ (new ∷ old)) m
          ≡ ok (pre ++ (new ∷ map (loaded_value cp) vs), m) =
        rw (sym (append_one pre new old), sym (append_one pre new (map (loaded_value cp) vs))) ih in
      let inside : i < length (pre ++ (h ∷ old)) = omega (arith, e, length-append pre (h ∷ old)) in
      simp (lt→ltb i (length (pre ++ (h ∷ old))) inside, set-middle pre h new old e, moved)

  module _ (ng : Ngraph) where
    -- A message of plaintexts, as many as its shape has, of a tensor that is not packed.
    abbrev pub sent_tensor : String → PbElementType → List ℕ → ℕ → Bool → List D → PbTensor D Bytes
    sent_tensor name pb_type shape offset cp vs = record {
      name = name;
      shape = shape;
      pb_type = pb_type;
      packed = false;
      offset = offset;
      pb_data = map (sent_value cp) vs;
    }

    abbrev pub loaded_tensor : String → PbElementType → List ℕ → Bool → List D → Tensor D
    loaded_tensor name pb_type shape cp vs = record {
      name = name;
      element_type = pb_type_to_type pb_type;
      shape = shape;
      packed = false;
      packed_shape = shape;
      m_data = map (loaded_value cp) vs;
      write_count = length vs;
    }

    pub load_new_tensor-values :
        (name : String) (pb_type : PbElementType) (shape : List ℕ) (offset : ℕ)
        (tensor_cp cp : Bool) (vs : List D) (m : Mem D Ct)
        → ng.shape_size shape ≡ length vs
        → load_new_tensor B ng tensor_cp (sent_tensor name pb_type shape offset cp vs) m
          ≡ ok (loaded_tensor name pb_type shape cp vs, m)
    unfolding load_new_tensor new_tensor
    load_new_tensor-values name pb_type shape offset tensor_cp cp vs m size =
        let blank : HeType D = of_plaintext (replicate 1 B.zero_d) tensor_cp in
        let n : ng.shape_size shape / 1 ≡ length vs = div-one (ng.shape_size shape) ∙ size in
        let old = replicate (length vs) blank in
        let loop =
          load_elements-values cp vs [] old 0 m refl (length-replicate (length vs) blank) in
        let count : 0 + length (map (sent_value cp) vs) ≡ length vs =
          omega (arith, length-map vs (sent_value cp)) in
        simp (◌>>=M◌, batch_size-unpacked shape, n, loop, count)
