-- ===== src/Reduce/AvgPool.antt =====
-- The average pooling of src/seal/kernel/avg_pool_seal.hpp. The sum and the inverse of the count of
-- elements have the addresses `temp` and the next one for the call; `inverse` is `1.f / n`.
use he_transformer_research.Base.{
  ℕ, ◌+◌, Bool, false, not, List, [], ◌∷◌, get_elem?, ◌==◌, if◌then◌else◌, ok, check_failed,
  require, deref,
}
use he_transformer_research.Backend.{Backend}
use he_transformer_research.Machine.{
  M, lift, object_at, put_object, of_plaintext, set_plaintext, ◌>>=◌, ◌>>◌,
}
use he_transformer_research.Scalar.Arith.{scalar_add_seal}
use he_transformer_research.Scalar.Multiply.{scalar_multiply_seal}
use he_transformer_research.Moves.{Coordinates}
use he_transformer_research.Reduce.Lists.{window_transform, window_indices}

module _ (N : Coordinates) (B : Backend) where
  open N use {of_shape, coords, index}
  open B use {D, zero_d}

  -- An element of the window is the sum, whose ciphertext it shares, or is added to it.
  unfoldable pub add_element : ℕ → ℕ → List ℕ → ℕ → Bool → M B (Unit {0})
  add_element temp a out out_idx first_add =
      let assigned : M B (Unit {0}) = (do
        h ← object_at B a
        put_object B temp h
        o ← lift B (deref (get_elem? out out_idx))
        set_plaintext B o (zero_d ∷ [])) in
      if first_add then assigned else scalar_add_seal B temp a temp

  -- The loop over the coordinates of the window that are in bounds; it ends with `n_elements`.
  unfoldable pub window_loop : ℕ → List ℕ → List ℕ → ℕ → List ℕ → ℕ → M B ℕ
  unfolding add_element
  window_loop temp arg out out_idx [] n_elements = lift B (ok n_elements)
  window_loop temp arg out out_idx (i ∷ is) n_elements = do
    a ← lift B (deref (get_elem? arg i))
    add_element temp a out out_idx (n_elements == 0)
    window_loop temp arg out out_idx is (n_elements + 1)

  unfoldable pub avg_pool_loop :
      ℕ
      → (ℕ → D)
      → List ℕ
      → List ℕ
      → List ℕ
      → List ℕ
      → List ℕ
      → List ℕ
      → List ℕ
      → List ℕ
      → List (List ℕ)
      → M B (Unit {0})
  unfolding window_loop
  avg_pool_loop temp inverse arg out arg_shape out_shape window strides below above [] =
      lift B (ok tt)
  avg_pool_loop temp inverse arg out arg_shape out_shape window strides below above
        (out_coord ∷ out_coords) =
      do
        t ← lift B (window_transform N arg_shape window strides below above out_coord)
        put_object B temp (of_plaintext [] false)
        let out_idx = index (of_shape out_shape) out_coord
        n_elements ← window_loop temp arg out out_idx (window_indices N t (coords t)) 0
        lift B (require (not (n_elements == 0)) check_failed)
        sum ← object_at B temp
        put_object B (temp + 1) (of_plaintext (inverse n_elements ∷ []) sum.complex_packing)
        scalar_multiply_seal B temp (temp + 1) temp
        average ← object_at B temp
        o ← lift B (deref (get_elem? out out_idx))
        put_object B o average
        avg_pool_loop temp inverse arg out arg_shape out_shape window strides below above out_coords

  unfoldable pub avg_pool_seal :
      ℕ
      → (ℕ → D)
      → List ℕ
      → List ℕ
      → List ℕ
      → List ℕ
      → List ℕ
      → List ℕ
      → List ℕ
      → List ℕ
      → Bool
      → M B (Unit {0})
  unfolding avg_pool_loop
  avg_pool_seal temp inverse arg out arg_shape out_shape window_shape strides below above
        include_padding =
      do
        lift B (require (not include_padding) check_failed)
        avg_pool_loop temp inverse arg out arg_shape out_shape window_shape strides below above
            (coords (of_shape out_shape))
