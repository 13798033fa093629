-- ===== src/Tensor/Bounds.antt =====
-- What `check_io_bounds` lets through on a packed tensor.
use native.Mathlib.Nat.{div-one, mul-div_cancel, mul-mod_left}
use he_transformer_research.Base.{
  ℕ, ◌*◌, ◌/◌, ◌%◌, ◌≤◌, ◌<◌, ◌≡◌, refl, true, false, List, [], ◌∷◌, ok, ne→==, ge→ltb, ltb, ◌==◌,
  arith,
}
use he_transformer_research.Tensor.{
  Ngraph, Tensor, batch_size, get_batch_size, get_batched_element_count, check_io_bounds,
}

-- On a packed tensor with a first dimension `d` that is not 0, an access of `k` elements of `d` values
-- passes the check for every `k` up to the unbatched number of elements, while the tensor has that
-- number divided by `d`.
pub check_io_bounds-unbatched :
    {D : Type 0} (ng : Ngraph) (t : Tensor D) (d k : ℕ) (ds : List ℕ)
    → t.shape ≡ d ∷ ds
    → t.packed ≡ true
    → 0 < d
    → 0 < ng.type_size t.element_type
    → k ≤ ng.shape_size t.shape
    → (check_io_bounds ng t (k * ng.type_size t.element_type * d) ≡ ok tt)
      × (get_batched_element_count ng t ≡ ok (ng.shape_size t.shape / d))
unfolding check_io_bounds get_batched_element_count batch_size
check_io_bounds-unbatched ng t d k ds shape packed pos sized low =
    let size = ng.type_size t.element_type in
    let batch : get_batch_size t ≡ d = simp (shape, packed) in
    let nonzero : (d == 0) ≡ false = ne→== d 0 (λ z. omega arith) in
    let bytes : k * size * d / d ≡ k * size = mul-div_cancel (k * size) pos in
    let whole : k * size % size ≡ 0 = mul-mod_left k size in
    let count : k * size / size ≡ k = mul-div_cancel k sized in
    let fits : ltb (ng.shape_size t.shape) k ≡ false = ge→ltb (ng.shape_size t.shape) k low in
    (simp (batch, nonzero, bytes, whole, count, fits), simp (batch, nonzero))

-- On a tensor that is not packed an access passes the check up to the number of elements.
pub check_io_bounds-single :
    {D : Type 0} (ng : Ngraph) (t : Tensor D) (k : ℕ)
    → get_batch_size t ≡ 1
    → 0 < ng.type_size t.element_type
    → k ≤ ng.shape_size t.shape
    → check_io_bounds ng t (k * ng.type_size t.element_type) ≡ ok tt
unfolding check_io_bounds
check_io_bounds-single ng t k batch sized low =
    let size = ng.type_size t.element_type in
    let bytes : k * size / 1 ≡ k * size = div-one (k * size) in
    let whole : k * size % size ≡ 0 = mul-mod_left k size in
    let count : k * size / size ≡ k = mul-div_cancel k sized in
    let fits : ltb (ng.shape_size t.shape) k ≡ false = ge→ltb (ng.shape_size t.shape) k low in
    simp (batch, bytes, whole, count, fits)

pub batch_size-unpacked : (shape : List ℕ) → batch_size shape false ≡ 1
unfolding batch_size
batch_size-unpacked [] = refl
batch_size-unpacked (d ∷ ds) = refl
