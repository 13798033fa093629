-- ===== src/Reduce/Dot.antt =====
-- The dot product of src/seal/kernel/dot_seal.cpp. The elements that the kernel creates for itself
-- have the addresses from `temp` on for the call: the two factors, their product and the sum.
pub mod Order
pub mod Sum
pub mod Rounds
use he_transformer_research.Base.{
  ℕ, Bool, true, false, List, [], ◌∷◌, ◌++◌, length, get_elem?, replicate, take, drop,
  if◌then◌else◌, map, ltb, ◌+◌, ◌-◌, not, ok, check_failed, undefined, out_of_range, require, deref,
}
use he_transformer_research.HeUtil.{ElementType}
use he_transformer_research.Backend.{Backend}
use he_transformer_research.Machine.{
  M, lift, object_at, put_object, of_plaintext, set_plaintext, ◌>>=◌, ◌>>◌,
}
use he_transformer_research.Scalar.Arith.{scalar_add_seal}
use he_transformer_research.Scalar.Multiply.{scalar_multiply_seal}
use he_transformer_research.Moves.{Coordinates}

-- For each output index, the pairs of indices of the factors.
pub data Round : Type 0 where
  round : ℕ → List (ℕ × ℕ) → Round

-- The coordinates of an output are those of the first argument that are not dotted, then those of the
-- second, which change first: the quotient and the remainder of the index of a round.
unfoldable pub projected_rounds {ℓ} :
    {C : Type ℓ} {R : Type ℓ} → (C → C → R) → List C → List C → List R
projected_rounds at [] coords1 = []
projected_rounds at (c0 ∷ coords0) coords1 =
    map (at c0) coords1 ++ projected_rounds at coords0 coords1

module _ (N : Coordinates) (B : Backend) where
  open N use {of_shape, coords, index}
  open B use {D, zero_d, is_supported_type}

  -- `sum = prod`, which shares the ciphertext, or `sum += prod`.
  unfoldable pub add_product : ℕ → Bool → M B (Unit {0})
  add_product temp first_add =
      let assigned : M B (Unit {0}) = (do
        prod ← object_at B (temp + 2)
        put_object B (temp + 3) prod) in
      if first_add then assigned else scalar_add_seal B (temp + 2) (temp + 3) (temp + 3)

  -- The walk along the dotted axes, for the pairs of indices of the factors; it ends with `first_add`.
  unfoldable pub walk : ℕ → List ℕ → List ℕ → ℕ → Bool → List (ℕ × ℕ) → M B Bool
  unfolding add_product
  walk temp arg0 arg1 batch_size first_add [] = lift B (ok first_add)
  walk temp arg0 arg1 batch_size first_add (pair ∷ pairs) = do
    a0 ← lift B (deref (get_elem? arg0 (pair.0)))
    a1 ← lift B (deref (get_elem? arg1 (pair.1)))
    mult_arg0 ← object_at B a0
    put_object B temp mult_arg0
    mult_arg1 ← object_at B a1
    put_object B (temp + 1) mult_arg1
    put_object B (temp + 2) (of_plaintext (replicate batch_size zero_d) false)
    scalar_multiply_seal B temp (temp + 1) (temp + 2)
    add_product temp first_add
    walk temp arg0 arg1 batch_size false pairs

  unfoldable pub write_sum : ℕ → ℕ → ℕ → Bool → M B (Unit {0})
  write_sum temp out batch_size first_add =
      let assigned : M B (Unit {0}) = (do sum ← object_at B (temp + 3); put_object B out sum) in
      if first_add then set_plaintext B out (replicate batch_size zero_d) else assigned

  -- The pairs for the coordinates `c0` and `c1` that are not dotted, and the positions of the others.
  unfoldable pub dot_pairs : List ℕ → List ℕ → List ℕ → List ℕ → List (List ℕ) → List (ℕ × ℕ)
  dot_pairs arg0_shape arg1_shape c0 c1 positions =
      map (λ p. (index (of_shape arg0_shape) (c0 ++ p), index (of_shape arg1_shape) (p ++ c1)))
        positions

  unfoldable pub dot_rounds : List ℕ → List ℕ → List ℕ → ℕ → List Round
  unfolding dot_pairs projected_rounds
  dot_rounds arg0_shape arg1_shape out_shape reduction_axes_count =
      let positions = coords (of_shape (take reduction_axes_count arg1_shape)) in
      projected_rounds
        (λ c0 c1.
          round (index (of_shape out_shape) (c0 ++ c1))
            (dot_pairs arg0_shape arg1_shape c0 c1 positions))
        (coords (of_shape (take (length arg0_shape - reduction_axes_count) arg0_shape)))
        (coords (of_shape (drop reduction_axes_count arg1_shape)))

  unfoldable pub dot_loop : ℕ → List ℕ → List ℕ → List ℕ → ℕ → List Round → M B (Unit {0})
  unfolding walk write_sum
  dot_loop temp arg0 arg1 out batch_size [] = lift B (ok tt)
  dot_loop temp arg0 arg1 out batch_size (round out_index pairs ∷ rounds) = do
    put_object B (temp + 3) (of_plaintext (replicate batch_size zero_d) false)
    first_add ← walk temp arg0 arg1 batch_size true pairs
    o ← lift B (deref (get_elem? out out_index))
    write_sum temp o batch_size first_add
    dot_loop temp arg0 arg1 out batch_size rounds

  -- More axes than the second argument has are copied from beyond it; more than the first has are a
  -- vector of a length that wraps around, which the standard library refuses.
  unfoldable pub dot_seal :
      ℕ → List ℕ → List ℕ → List ℕ → List ℕ → List ℕ → List ℕ → ℕ → ElementType → ℕ → M B (Unit {0})
  unfolding dot_rounds dot_loop
  dot_seal temp arg0 arg1 out arg0_shape arg1_shape out_shape reduction_axes_count element_type
        batch_size =
      do
        lift B (require (is_supported_type element_type) check_failed)
        lift B (require (not (ltb (length arg1_shape) reduction_axes_count)) undefined)
        lift B (require (not (ltb (length arg0_shape) reduction_axes_count)) out_of_range)
        dot_loop temp arg0 arg1 out batch_size
            (dot_rounds arg0_shape arg1_shape out_shape reduction_axes_count)
