-- ===== src/Reduce/Lists.antt =====
-- `max_pool_seal_max_list` of src/seal/kernel/max_pool_seal.hpp: for each output, the indices of the
-- inputs that it is the maximum of.
use he_transformer_research.Base.{
  ℕ, zero, suc, ◌+◌, ◌*◌, ◌-◌, List, [], ◌∷◌, ◌++◌, length, get_elem?, set, map, replicate, ltb,
  ◌==◌, if◌then◌else◌, Result, ok, err, check_failed, undefined, ◌>>=◌, ◌>>◌, require, deref,
}
use he_transformer_research.Moves.{Coordinates, of_size}

-- A window, its strides and the padding of the spatial dimensions left, with the output coordinate.
-- A vector that ends early is read out of bounds.
window_range :
    ℕ → List ℕ → List ℕ → List ℕ → List ℕ → List ℕ → Result (List ℕ × List ℕ × List ℕ × List ℕ)
window_range zero out_coord window strides below above = ok ([], [], [], [])
window_range (suc n) (o ∷ os) (w ∷ ws) (s ∷ ss) (b ∷ bs) (a ∷ rest) =
    window_range n os ws ss bs rest >>= λ tails.
    ok ((s * o) ∷ tails.0, (s * o + w) ∷ tails.1, b ∷ tails.2, a ∷ tails.3)
window_range (suc n) out_coord window strides below above = err undefined

pub count_up : ℕ → ℕ → List ℕ
count_up zero i = []
count_up (suc n) i = i ∷ count_up n (i + 1)

module _ (N : Coordinates) where
  open N use {Transform, of_shape, of_padded, coords, index, has_source, shape_size}

  -- The transform over the inputs of one output; a coordinate of fewer than two dimensions, or an
  -- input shape of fewer, is out of bounds.
  pub window_transform : List ℕ → List ℕ → List ℕ → List ℕ → List ℕ → List ℕ → Result Transform
  unfolding window_range count_up
  window_transform arg_shape window strides below above (batch_index ∷ channel ∷ spatial) = do
    require (ltb 1 (length arg_shape)) undefined
    let n = length arg_shape - 2
    range ← window_range n spatial window strides below above
    ok (
        of_padded arg_shape (batch_index ∷ channel ∷ range.0)
          ((batch_index + 1) ∷ (channel + 1) ∷ range.1) (replicate (2 + n) 1)
          (count_up (length arg_shape) 0) (map of_size (0 ∷ 0 ∷ range.2))
          (map of_size (0 ∷ 0 ∷ range.3)))
  window_transform arg_shape window strides below above out_coord = err undefined

  -- The coordinates in the padding are left out.
  pub window_indices : Transform → List (List ℕ) → List ℕ
  window_indices t [] = []
  window_indices t (c ∷ cs) =
      let rest = window_indices t cs in if has_source t c then index t c ∷ rest else rest

  pub max_list_loop :
      List ℕ
      → List ℕ
      → List ℕ
      → List ℕ
      → List ℕ
      → Transform
      → List (List ℕ)
      → List (List ℕ)
      → Result (List (List ℕ))
  unfolding window_transform window_indices
  max_list_loop arg_shape window strides below above output [] lists = ok lists
  max_list_loop arg_shape window strides below above output (c ∷ cs) lists = do
    t ← window_transform arg_shape window strides below above c
    before ← deref (get_elem? lists (index output c))
    max_list_loop arg_shape window strides below above output cs
        (set lists (index output c) (before ++ window_indices t (coords t)))

  unfoldable pub max_pool_seal_max_list :
      List ℕ → List ℕ → List ℕ → List ℕ → List ℕ → List ℕ → Result (List (List ℕ))
  unfolding max_list_loop
  max_pool_seal_max_list arg_shape out_shape window strides below above = do
    let output = of_shape out_shape
    require (length (coords output) == shape_size out_shape) check_failed
    max_list_loop arg_shape window strides below above output (coords output)
        (replicate (shape_size out_shape) [])
