-- ===== src/Tensor/Chunks.antt =====
-- `HETensor::write_to_pb_tensors` of src/he_tensor.cpp: a tensor is sent as messages of at most so
-- many elements.
pub mod Cover
pub mod Plain
use Prim.Native.String.{String}
use text.Mathlib.Text.{◌==◌ as str_eq}
use he_transformer_research.Base.{
  ℕ, zero, suc, ◌+◌, ◌-◌, ◌*◌, ◌/◌, ◌%◌, Bool, true, false, not, ◌&&◌, Option, none, some, List, [],
  ◌∷◌, length, get_elem?, set, ltb, leb, ◌==◌, eqb, if◌then◌else◌, Result, ok, err, check_failed,
  undefined, require, deref,
}
use he_transformer_research.HeUtil.{ElementType, PbElementType, type_to_pb_type}
use he_transformer_research.Backend.{Backend}
use he_transformer_research.Machine.{HeType, M, lift, ◌>>=◌, ◌>>◌}
use he_transformer_research.Machine.Wire.{PbHeType, save, load}
use he_transformer_research.Tensor.{Tensor}

-- `pb::HETensor`
pub record PbTensor (D Bytes : Type 0) : Type 0 where
  pub name : String
  pub shape : List ℕ
  pub pb_type : PbElementType
  pub packed : Bool
  pub offset : ℕ
  pub pb_data : List (PbHeType D Bytes)

-- The number of messages for `size` elements.
pub num_tensors : ℕ → ℕ → ℕ
num_tensors size max_num = size / max_num + (if size % max_num == 0 then 0 else 1)

-- The offset and the number of elements of the messages from `tensor_idx` on, `n` of `total`.
pub chunk_loop : ℕ → ℕ → ℕ → ℕ → ℕ → ℕ → List (ℕ × ℕ)
chunk_loop size max_num total tensor_idx zero offset = []
chunk_loop size max_num total tensor_idx (suc n) offset =
    let num = if tensor_idx == total - 1 then size - tensor_idx * max_num else max_num in
    (offset, num) ∷ chunk_loop size max_num total (tensor_idx + 1) n (offset + num)

pub chunks : ℕ → ℕ → List (ℕ × ℕ)
unfolding num_tensors chunk_loop
chunks size max_num =
    let total = num_tensors size max_num in chunk_loop size max_num total 0 total 0

-- `byte_size` is protobuf's `ByteSize`, and `float_quotient` the floor of the largest `int32_t`
-- divided by the size as a float.
module _ (B : Backend) (byte_size : PbHeType B.D B.Bytes → ℕ) (float_quotient : ℕ → ℕ) where
  open B use {D, Bytes}

  pub save_range : List (HeType D) → ℕ → ℕ → M B (List (PbHeType D Bytes))
  save_range hs offset zero = lift B (ok [])
  save_range hs offset (suc n) = do
    h ← lift B (deref (get_elem? hs offset))
    pb ← save B h
    rest ← save_range hs (offset + 1) n
    lift B (ok (pb ∷ rest))

  tensor_message : Tensor D → PbElementType → ℕ → List (PbHeType D Bytes) → PbTensor D Bytes
  tensor_message t pb_type offset pbs = record {
    name = t.name;
    shape = t.shape;
    pb_type = pb_type;
    packed = t.packed;
    offset = offset;
    pb_data = pbs;
  }

  save_chunks : Tensor D → PbElementType → List (ℕ × ℕ) → M B (List (PbTensor D Bytes))
  save_chunks t pb_type [] = lift B (ok [])
  save_chunks t pb_type (chunk ∷ rest) = do
    pbs ← save_range t.m_data (chunk.0) (chunk.1)
    others ← save_chunks t pb_type rest
    lift B (ok (tensor_message t pb_type (chunk.0) pbs ∷ others))

  -- A quotient of 2 leaves no element for a message, a smaller one a negative number of them.
  save_tensor : Tensor D → PbElementType → HeType D → M B (List (PbTensor D Bytes))
  save_tensor t pb_type first = do
    pb ← save B first
    let quotient = float_quotient (byte_size pb)
    lift B (require (ltb 2 quotient) undefined)
    save_chunks t pb_type (chunks (length t.m_data) (quotient - 2))

  unfoldable pub write_to_pb_tensors : Tensor D → M B (List (PbTensor D Bytes))
  unfolding tensor_message save_range save_chunks save_tensor
  write_to_pb_tensors t = do
    let pb_type = type_to_pb_type t.element_type
    let none_sent = lift B (ok (tensor_message t pb_type 0 [] ∷ []))
    elim t.m_data [ [] ↦ none_sent | h ∷ hs ↦ save_tensor t pb_type h ]
