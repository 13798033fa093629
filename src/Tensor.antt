-- ===== src/Tensor.antt =====
-- `HETensor` of src/he_tensor.hpp and src/he_tensor.cpp: the shapes, the packing along the first
-- axis, and reads and writes of the host's memory. nGraph's sizes are a parameter. The memory that
-- is read or written is the list of its values, of the size of one element each.
pub mod Bounds
pub mod Pack
pub mod Io
pub mod Chunks
pub mod Load
use Prim.Native.String.{String}
use he_transformer_research.Base.{
  ℕ, zero, suc, ◌+◌, ◌*◌, ◌/◌, ◌%◌, Bool, true, false, not, ◌&&◌, ◌||◌, Option, List, [], ◌∷◌,
  length, ltb, ◌==◌, if◌then◌else◌, replicate, Result, ok, err, Error, ngraph_error, check_failed,
  out_of_range, undefined, ◌>>=◌, ◌>>◌, require,
}
use he_transformer_research.HeUtil.{ElementType}
use he_transformer_research.Machine.{HeType, is_ciphertext}

-- nGraph's `element::Type::size()` and `shape_size(shape)`.
pub record Ngraph : Type 0 where
  pub type_size : ElementType → ℕ
  pub shape_size : List ℕ → ℕ

-- `shape` and `element_type` are the descriptor's.
pub record Tensor (D : Type 0) : Type 0 where
  pub name : String
  pub element_type : ElementType
  pub shape : List ℕ
  pub packed : Bool
  pub packed_shape : List ℕ
  pub m_data : List (HeType D)
  pub write_count : ℕ

-- A first dimension that is not 0 is replaced.
abbrev with_first : List ℕ → ℕ → List ℕ
with_first [] n = []
with_first (d ∷ ds) n = (if d == 0 then d else n) ∷ ds

unfoldable pub pack_shape : List ℕ → ℕ → Result (List ℕ)
pack_shape shape pack_axis = require (pack_axis == 0) ngraph_error >> ok (with_first shape 1)

unfoldable pub unpack_shape : List ℕ → ℕ → ℕ → Result (List ℕ)
unpack_shape shape pack_size pack_axis =
    require (pack_axis == 0) ngraph_error >> ok (with_first shape pack_size)

unfoldable pub batch_size : List ℕ → Bool → ℕ
batch_size [] packed = 1
batch_size (d ∷ ds) packed = if packed then d else 1

module _ {D : Type 0} where
  abbrev pub get_batch_size : Tensor D → ℕ
  get_batch_size t = batch_size t.shape t.packed

  pub any_encrypted_data : List (HeType D) → Bool
  any_encrypted_data [] = false
  any_encrypted_data (h ∷ hs) = is_ciphertext h || any_encrypted_data hs

  unfoldable pub done_loading : Tensor D → Bool
  done_loading t = t.write_count == length t.m_data

  pub get_batched_element_count : Ngraph → Tensor D → Result ℕ
  get_batched_element_count ng t =
      let count = ng.shape_size t.shape in
      let batch = get_batch_size t in
      if batch == 0 then (require (count == 0) check_failed >> ok 0) else ok (count / batch)

  -- The count of bytes is divided by the batch size, but compared with the unbatched count.
  pub check_io_bounds : Ngraph → Tensor D → ℕ → Result (Unit {0})
  check_io_bounds ng t n = do
    let batch = get_batch_size t
    let size = ng.type_size t.element_type
    require (not (batch == 0) || (n == 0)) check_failed
    let bytes_per_element = if batch == 0 then n else n / batch
    require (bytes_per_element % size == 0) ngraph_error
    require (not (ltb (ng.shape_size t.shape) (bytes_per_element / size))) out_of_range
