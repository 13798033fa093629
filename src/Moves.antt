-- ===== src/Moves.antt =====
-- The kernels that only move elements: `broadcast_seal`, `concat_seal`, `slice_seal`,
-- `reverse_seal` and `reshape_seal` of src/seal/kernel. An element is copied as a value of any type;
-- nGraph's `CoordinateTransform`, `reduce` and `shape_size` are a parameter. An index outside a
-- vector is undefined.
pub mod Copy
use he_transformer_research.Base.{
  ℕ, zero, suc, ◌+◌, ◌-◌, Bool, true, false, ◌||◌, none, some, List, [], ◌∷◌, length, map,
  get_elem?, set, ltb, ◌==◌, if◌then◌else◌, replicate, zip_with, Result, ok, err, check_failed,
  undefined, ◌>>=◌, ◌>>◌, require, deref,
}

-- A `ptrdiff_t` as a difference of two numbers; what is out of its range does not come up.
pub record Diff : Type 0 where
  pub plus : ℕ
  pub minus : ℕ

abbrev pub of_size : ℕ → Diff
of_size n = record { plus = n; minus = 0 }

-- The transforms by the constructors that the kernels call. `coords` is what a range loop over the
-- transform visits, in order.
pub record Coordinates : Type 1 where
  pub Transform : Type 0
  pub of_shape : List ℕ → Transform
  pub of_range : List ℕ → List ℕ → List ℕ → Transform
  pub of_strides : List ℕ → List ℕ → List ℕ → List ℕ → Transform
  pub of_axes : List ℕ → List ℕ → List ℕ → List ℕ → List ℕ → Transform
  -- `of_padded shape start end strides axis_order padding_below padding_above`
  pub of_padded : List ℕ → List ℕ → List ℕ → List ℕ → List ℕ → List Diff → List Diff → Transform
  -- `of_dilated`: the same, with the strides of the dilation of the data
  pub of_dilated :
      List ℕ → List ℕ → List ℕ → List ℕ → List ℕ → List Diff → List Diff → List ℕ → Transform
  pub coords : Transform → List (List ℕ)
  pub index : Transform → List ℕ → ℕ
  pub has_source : Transform → List ℕ → Bool
  pub target_shape : Transform → List ℕ
  pub reduce : List ℕ → List ℕ → List ℕ
  pub shape_size : List ℕ → ℕ

module _ {ℓ} {A : Type ℓ} where
  -- `out[to] = arg[from]` for the pairs `(to, from)`, in order.
  unfoldable pub copy_loop : List (ℕ × ℕ) → List A → List A → Result (List A)
  copy_loop [] arg out = ok out
  copy_loop (pair ∷ pairs) arg out = do
    v ← deref (get_elem? arg (pair.1))
    require (ltb (pair.0) (length out)) undefined
    copy_loop pairs arg (set out (pair.0) v)

unfoldable pub is_member : ℕ → List ℕ → Bool
is_member i [] = false
is_member i (a ∷ axes) = (i == a) || is_member i axes

-- The coordinate, from dimension `i` on, with the reversed axes counted from the other end.
unfoldable pub reverse_coord : ℕ → List ℕ → List ℕ → List ℕ → List ℕ
unfolding is_member
reverse_coord i axes shape [] = []
reverse_coord i axes [] (c ∷ cs) = c ∷ cs
reverse_coord i axes (d ∷ ds) (c ∷ cs) =
    (if is_member i axes then d - c - 1 else c) ∷ reverse_coord (i + 1) axes ds cs

-- An output iterator and the loop over the input advance together.
abbrev pub in_step : (N : Coordinates) → N.Transform → N.Transform → List (ℕ × ℕ)
in_step N output input =
    zip_with (λ o i. (N.index output o, N.index input i)) (N.coords output) (N.coords input)

module _ {ℓ} (N : Coordinates) {A : Type ℓ} where
  open N use {
    Transform, of_shape, of_range, of_strides, of_axes, coords, index, target_shape, reduce,
    shape_size,
  }

  unfoldable pub broadcast_seal : List A → List A → List ℕ → List ℕ → List ℕ → Result (List A)
  broadcast_seal arg out in_shape out_shape broadcast_axes =
      let input = of_shape in_shape in
      let output = of_shape out_shape in
      copy_loop (map (λ c. (index output c, index input (reduce c broadcast_axes))) (coords output))
        arg out

  unfoldable pub slice_seal :
      List A → List A → List ℕ → List ℕ → List ℕ → List ℕ → List ℕ → Result (List A)
  slice_seal arg out arg_shape lower_bounds upper_bounds strides out_shape = do
    let input = of_strides arg_shape lower_bounds upper_bounds strides
    let output = of_shape out_shape
    require (shape_size (target_shape input) == shape_size (target_shape output)) check_failed
    copy_loop (in_step N output input) arg out

  unfoldable pub reverse_seal : List A → List A → List ℕ → List ℕ → List ℕ → Result (List A)
  reverse_seal arg out arg_shape out_shape reversed_axes =
      let input = of_shape arg_shape in
      let output = of_shape out_shape in
      copy_loop
        (map (λ c. (index output c, index input (reverse_coord 0 reversed_axes arg_shape c)))
          (coords output))
        arg out

  unfoldable pub reshape_seal : List A → List A → List ℕ → List ℕ → List ℕ → Result (List A)
  reshape_seal arg out in_shape in_axis_order out_shape = do
    let corner = replicate (length in_shape) 0
    let input = of_axes in_shape corner in_shape (replicate (length in_shape) 1) in_axis_order
    let output = of_shape out_shape
    require (shape_size (target_shape input) == shape_size (target_shape output)) check_failed
    copy_loop (in_step N output input) arg out

  -- One input of `concat_seal`: its chunk of the output starts at `pos` along the axis.
  concat_one : List A → List A → List ℕ → List ℕ → ℕ → ℕ → ℕ → Result (List A)
  concat_one arg out in_shape out_shape axis pos extent = do
    let input = of_shape in_shape
    let start = set (replicate (length out_shape) 0) axis pos
    let chunk = of_range out_shape start (set out_shape axis (pos + extent))
    require (shape_size (target_shape input) == shape_size (target_shape chunk)) check_failed
    copy_loop (in_step N chunk input) arg out

  concat_loop : List (List A) → List (List ℕ) → List A → List ℕ → ℕ → ℕ → Result (List A)
  concat_loop [] in_shapes out out_shape axis pos = ok out
  concat_loop (arg ∷ args) [] out out_shape axis pos = err undefined
  concat_loop (arg ∷ args) (in_shape ∷ in_shapes) out out_shape axis pos =
      let work : Result (List A × ℕ) = do
        extent ← deref (get_elem? in_shape axis)
        require (ltb axis (length out_shape)) undefined
        out' ← concat_one arg out in_shape out_shape axis pos extent
        ok (out', pos + extent)
      in let skip : Result (List A × ℕ) = ok (out, pos) in
        (if shape_size in_shape == 0 then skip else work) >>= λ next.
        concat_loop args in_shapes (next.0) out_shape axis (next.1)

  pub concat_seal : List (List A) → List A → List (List ℕ) → List ℕ → ℕ → Result (List A)
  unfolding concat_one concat_loop
  concat_seal args out in_shapes out_shape axis = concat_loop args in_shapes out out_shape axis 0
