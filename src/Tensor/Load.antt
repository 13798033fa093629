-- ===== src/Tensor/Load.antt =====
-- `HETensor::load_from_pb_tensors` and the two `load_from_pb_tensor` of src/he_tensor.hpp and
-- src/he_tensor.cpp: a message is loaded at its offset into a tensor, or makes a new one.
pub mod Plain
use text.Mathlib.Text.{◌==◌ as str_eq}
use he_transformer_research.Base.{
  ℕ, ◌+◌, Bool, true, false, ◌&&◌, Option, none, some, List, [], ◌∷◌, length, set, ltb, ◌==◌, eqb,
  Result, ok, err, check_failed, undefined, require,
}
use he_transformer_research.HeUtil.{pb_type_to_type}
use he_transformer_research.Backend.{Backend}
use he_transformer_research.Machine.{HeType, M, lift, ◌>>=◌, ◌>>◌}
use he_transformer_research.Machine.Wire.{PbHeType, load}
use he_transformer_research.Tensor.{Ngraph, Tensor}
use he_transformer_research.Tensor.Io.{new_tensor}
use he_transformer_research.Tensor.Chunks.{PbTensor}

shape_eq : List ℕ → List ℕ → Bool
shape_eq [] [] = true
shape_eq (x ∷ xs) (y ∷ ys) = (x == y) && shape_eq xs ys
shape_eq xs ys = false

module _ (B : Backend) where
  open B use {D, Bytes}

  -- The elements are loaded one after the other; an offset past the end is undefined.
  pub load_elements : List (PbHeType D Bytes) → ℕ → List (HeType D) → M B (List (HeType D))
  load_elements [] offset hs = lift B (ok hs)
  load_elements (pb ∷ pbs) offset hs = do
    h ← load B pb
    lift B (require (ltb offset (length hs)) undefined)
    load_elements pbs (offset + 1) (set hs offset h)

  unfoldable pub load_from_pb_tensor : Option (Tensor D) → PbTensor D Bytes → M B (Tensor D)
  unfolding shape_eq
  load_from_pb_tensor he_tensor pb = do
    t ← lift B (elim he_tensor [ none ↦ err check_failed | some t ↦ ok t ])
    lift B (require (shape_eq t.shape pb.shape) check_failed)
    lift B (require (str_eq t.name pb.name) check_failed)
    lift B (require (eqb t.packed pb.packed) check_failed)
    hs ← load_elements pb.pb_data pb.offset t.m_data
    lift B (ok (record t { m_data = hs; write_count = t.write_count + length pb.pb_data }))

module _ (B : Backend) (ng : Ngraph) (complex_packing : Bool) where
  open B use {D, Bytes}

  -- The elements are placed from index 0 on, whatever offset the message has.
  load_one : PbTensor D Bytes → M B (Tensor D)
  load_one pb = do
    t ←
        new_tensor B ng (pb_type_to_type pb.pb_type) pb.shape pb.packed complex_packing false
          pb.name
    hs ← load_elements B pb.pb_data 0 t.m_data
    lift B (ok (record t { m_data = hs; write_count = t.write_count + length pb.pb_data }))

  pub load_from_pb_tensors : List (PbTensor D Bytes) → M B (Tensor D)
  unfolding load_one
  load_from_pb_tensors (pb ∷ []) = load_one pb
  load_from_pb_tensors _ = lift B (err check_failed)

  unfoldable pub load_new_tensor : PbTensor D Bytes → M B (Tensor D)
  unfolding load_from_pb_tensors
  load_new_tensor pb = load_from_pb_tensors (pb ∷ [])
