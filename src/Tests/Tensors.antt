-- ===== src/Tests/Tensors.antt =====
-- The theorems on tensors and on the kernels that move elements at concrete inputs.
use he_transformer_research.Base.{
  ◌-◌, inl, ◌*◌, true, ℕ, ◌≡◌, refl, List, [], ◌∷◌, length, map, ok, arith,
}
use he_transformer_research.HeUtil.{ElementType}
use he_transformer_research.Tensor.{
  Ngraph, check_io_bounds, get_batched_element_count, Tensor, get_batch_size,
}
use he_transformer_research.Tensor.Bounds.{check_io_bounds-unbatched}
use he_transformer_research.Tensor.Pack.{pack, unpack}
use he_transformer_research.Tensor.Pack.RoundTrip.{plain_tensor, pack-unpack_roundtrip}
use he_transformer_research.Tensor.Chunks.{chunks}
use he_transformer_research.Tensor.Chunks.Cover.{Covers, chunks-Covers}
use he_transformer_research.Moves.{Coordinates, broadcast_seal, reverse_seal, slice_seal}
use he_transformer_research.Moves.Copy.{count_from, broadcast_reverse-in_order, slice_seal-in_order}

abbrev two_rows : List (List ℕ)
two_rows = (1 ∷ 2 ∷ 3 ∷ []) ∷ (4 ∷ 5 ∷ 6 ∷ []) ∷ []

pack-unpack_roundtrip_example :
    (t : Tensor ℕ) × (pack (plain_tensor "x" ElementType.f32 2 (3 ∷ []) two_rows 0) 0 ≡ ok t)
    × (length t.m_data ≡ 3)
    × (get_batch_size t ≡ 2)
    × (unpack t ≡ ok (plain_tensor "x" ElementType.f32 2 (3 ∷ []) two_rows 0))
pack-unpack_roundtrip_example =
    pack-unpack_roundtrip "x" ElementType.f32 2 3 (3 ∷ []) two_rows 0 (omega arith) refl
      (refl, (refl, tt))

chunks-Covers_example : Covers 4 (chunks 10 4) 0 10
chunks-Covers_example = chunks-Covers 10 4 (omega arith) (omega arith)

-- Vectors alone: a shape has one dimension, and a slice goes through every element.
abbrev pub head_of : List ℕ → ℕ
head_of [] = 0
head_of (x ∷ xs) = x

abbrev pub line : Coordinates
line = record {
  Transform = List ℕ;
  of_shape = λ shape. shape;
  of_range = λ shape lower upper. shape;
  of_strides = λ shape lower upper strides. shape;
  of_axes = λ shape lower upper strides axes. shape;
  of_padded = λ shape start finish strides axes below above. shape;
  of_dilated = λ shape start finish strides axes below above dilation. shape;
  coords = λ t. map (λ i. i ∷ []) (count_from (head_of t) 0);
  index = λ t c. head_of c;
  has_source = λ t c. true;
  target_shape = λ t. t;
  reduce = λ c axes. 0 ∷ [];
  shape_size = head_of;
}

abbrev seven_eight : List ℕ
seven_eight = 7 ∷ 8 ∷ []

abbrev zeros : List ℕ
zeros = 0 ∷ 0 ∷ []

-- The mirror image in a dimension of size 2.
abbrev flip : List ℕ → List ℕ
flip [] = []
flip (c ∷ cs) = (1 - c) ∷ cs

broadcast_reverse-in_order_example :
    (broadcast_seal line seven_eight zeros (2 ∷ []) (2 ∷ []) (0 ∷ []) ≡ ok (7 ∷ 7 ∷ []))
    × (reverse_seal line seven_eight zeros (2 ∷ []) (2 ∷ []) (0 ∷ []) ≡ ok (8 ∷ 7 ∷ []))
broadcast_reverse-in_order_example =
    broadcast_reverse-in_order line seven_eight zeros (7 ∷ 7 ∷ []) (8 ∷ 7 ∷ []) (2 ∷ []) (2 ∷ [])
      (0 ∷ []) flip refl refl refl (refl, (refl, tt))
      ((inl (refl, refl), tt), ((inl (refl, refl), tt), tt)) (refl, (refl, tt))

slice_seal-in_order_example :
    slice_seal line seven_eight zeros (2 ∷ []) (0 ∷ []) (2 ∷ []) (1 ∷ []) (2 ∷ []) ≡ ok seven_eight
slice_seal-in_order_example =
    slice_seal-in_order line seven_eight zeros seven_eight (2 ∷ []) (2 ∷ []) (0 ∷ []) (2 ∷ [])
      (1 ∷ []) refl refl refl refl (refl, (refl, tt))

abbrev sizes : Ngraph
sizes = record { type_size = λ t. 4; shape_size = λ shape. 6 }

abbrev packed_tensor : Tensor ℕ
packed_tensor = record {
  name = "x";
  element_type = ElementType.f32;
  shape = 2 ∷ 3 ∷ [];
  packed = true;
  packed_shape = 1 ∷ 3 ∷ [];
  m_data = [];
  write_count = 0;
}

check_io_bounds-unbatched_example :
    (check_io_bounds sizes packed_tensor (6 * 4 * 2) ≡ ok tt)
    × (get_batched_element_count sizes packed_tensor ≡ ok 3)
check_io_bounds-unbatched_example =
    check_io_bounds-unbatched sizes packed_tensor 2 6 (3 ∷ []) refl refl (omega arith) (omega arith)
      (omega arith)
