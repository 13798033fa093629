-- ===== src/Tensor/Chunks/Plain.antt =====
-- A tensor of plaintexts of one value each is sent as its values, in one message where they fit.
use Prim.Native.String.{String}
use he_transformer_research.Base.{
  ℕ, suc, ◌+◌, ◌-◌, ◌≤◌, ◌≡◌, refl, sym, ap, ◌∙◌, Bool, true, List, [], ◌∷◌, ◌++◌, map, length, ltb,
  lt→ltb, length-append, length-map, append_one, get_elem?-middle, ok, arith,
}
use he_transformer_research.HeUtil.{PbElementType, type_to_pb_type}
use he_transformer_research.Backend.{Backend}
use he_transformer_research.Machine.{HeType, Mem, of_plaintext, plaintext_packing}
use he_transformer_research.Machine.{◌>>=◌ as ◌>>=M◌, ◌>>◌ as ◌>>M◌}
use he_transformer_research.Machine.Wire.{PbHeType, save}
use he_transformer_research.Tensor.{Ngraph}
use he_transformer_research.Tensor.Load.Plain.{sent_value, loaded_value, sent_tensor, loaded_tensor}
use he_transformer_research.Tensor.Chunks.{
  chunks, save_range, save_chunks, save_tensor, tensor_message, write_to_pb_tensors,
}
use he_transformer_research.Tensor.Chunks.Cover.{chunks-one}

module _ (B : Backend) (byte_size : PbHeType B.D B.Bytes → ℕ) (float_quotient : ℕ → ℕ) where
  open B use {D, Ct, to_float}

  save-value :
      (cp : Bool) (v : D) (m : Mem D Ct)
      → save B (loaded_value B cp v) m ≡ ok (sent_value B cp (to_float v), m)
  unfolding save of_plaintext plaintext_packing
  save-value cp v m = refl

  save_range-values :
      (cp : Bool) (vs : List D) (pre : List (HeType D)) (i : ℕ) (m : Mem D Ct)
      → i ≡ length pre
      → save_range B byte_size float_quotient (pre ++ map (loaded_value B cp) vs) i (length vs) m
        ≡ ok (map (sent_value B cp) (map to_float vs), m)
  unfolding save_range
  save_range-values cp [] pre i m e = refl
  save_range-values cp (v ∷ vs) pre i m e =
      let h = loaded_value B cp v in
      let hs = map (loaded_value B cp) vs in
      let ih =
        save_range-values cp vs (pre ++ (h ∷ [])) (i + 1) m
          (omega (arith, e, length-append pre (h ∷ []))) in
      let moved : save_range B byte_size float_quotient (pre ++ (h ∷ hs)) (i + 1) (length vs) m
          ≡ ok (map (sent_value B cp) (map to_float vs), m) =
        rw (sym (append_one pre h hs)) ih in
      simp (◌>>=M◌, get_elem?-middle pre h hs e, save-value cp v m, moved)

  -- A tensor of at least one and at most as many elements as fit in a message is sent as one message,
  -- of its values as floats.
  pub write_to_pb_tensors-values :
      (ng : Ngraph) (name : String) (pb_type : PbElementType) (shape : List ℕ) (cp : Bool) (v : D)
      (vs : List D) (m : Mem D Ct)
      → let t = loaded_tensor B ng name pb_type shape cp (v ∷ vs) in
        suc (length vs) + 2 ≤ float_quotient (byte_size (sent_value B cp (to_float v)))
        → write_to_pb_tensors B byte_size float_quotient t m
          ≡ ok (
            record (sent_tensor B ng name pb_type shape 0 cp (map to_float (v ∷ vs))) {
              pb_type = type_to_pb_type t.element_type;
            }
                ∷ [],
            m,
          )
  unfolding write_to_pb_tensors save_tensor save_chunks tensor_message
  write_to_pb_tensors-values ng name pb_type shape cp v vs m fits =
      let h = loaded_value B cp v in
      let hs = map (loaded_value B cp) vs in
      let q = float_quotient (byte_size (sent_value B cp (to_float v))) in
      let size : suc (length hs) ≡ suc (length vs) = ap suc (length-map vs (loaded_value B cp)) in
      let large : ltb 2 q ≡ true = lt→ltb 2 q (omega arith) in
      let one : chunks (suc (length hs)) (q - 2) ≡ (0, suc (length vs)) ∷ [] =
        ap (λ n. chunks n (q - 2)) size
        ∙ chunks-one (suc (length vs)) (q - 2) (omega arith) (omega arith) in
      let saved = save_range-values cp vs (h ∷ []) (0 + 1) m refl in
      simp (
        ◌>>=M◌,
        ◌>>M◌,
        save_tensor,
        save_chunks,
        tensor_message,
        save-value cp v m,
        large,
        one,
        saved,
      )
