-- ===== src/Reduce.antt =====
-- The kernels that reduce: `max_seal`, `max_pool_seal` and `sum_seal` of src/seal/kernel. A vector
-- of `HEType` is the list of its elements' addresses. Where `max_pool_seal` copies the elements of a
-- window and the output, the model takes them where they are: `max_seal` reads all the elements
-- before it writes, and the copy of the output is assigned back.
pub mod Lists
pub mod Bounds
pub mod Softmax
pub mod Dot
pub mod AvgPool
pub mod Convolution
use he_transformer_research.Base.{
  ℕ, zero, suc, ◌+◌, ◌*◌, ◌-◌, Bool, true, false, none, some, List, [], ◌∷◌, ◌++◌, length,
  get_elem?, set, replicate, resize, map, ltb, ◌==◌, if◌then◌else◌, Result, ok, err, check_failed,
  undefined, require, deref,
}
use he_transformer_research.HeUtil.{ElementType}
use he_transformer_research.Backend.{Backend}
use he_transformer_research.Machine.{
  HeType, M, lift, object_at, put_object, cell_at, put_cell, pointer, of_plaintext, set_plaintext,
  ◌>>=◌, ◌>>◌,
}
use he_transformer_research.Cipher.Encode.{encrypt, decrypt}
use he_transformer_research.Scalar.Arith.{cipher_of, scalar_add_seal}
use he_transformer_research.Moves.{Coordinates}
use he_transformer_research.Reduce.Lists.{max_pool_seal_max_list}

module _ (N : Coordinates) (B : Backend) where
  open N use {of_shape, coords, index, reduce}
  open B use {D, zero_d, minus_infinity, less, first_chain_index, backend_scale, is_supported_type}

  -- The index of the input and that of the output, for each input coordinate.
  pub reduced_pairs : List ℕ → List ℕ → List ℕ → List (ℕ × ℕ)
  reduced_pairs in_shape out_shape reduction_axes =
      let input = of_shape in_shape in
      let output = of_shape out_shape in
      map (λ c. (index input c, index output (reduce c reduction_axes))) (coords input)

  -- The loop over the values of one element; more values than the output has are out of bounds.
  pub max_into : List D → List D → Result (List D)
  max_into out [] = ok out
  max_into [] (y ∷ ys) = err undefined
  max_into (x ∷ xs) (y ∷ ys) = elim (max_into xs ys) [
    | ok rest ↦ ok ((if less x y then y else x) ∷ rest)
    | err e ↦ err e
  ]

  pub max_values : ℕ → HeType D → M B (List D)
  max_values batch_size h =
      let ciphertext = (do
        p ← pointer B h
        c ← cell_at B p
        values ← lift B (decrypt B c h.complex_packing batch_size)
        lift B (ok (resize batch_size zero_d values))) in
      if h.is_plain then lift B (ok h.plain) else ciphertext

  pub max_loop : List ℕ → ℕ → List (ℕ × ℕ) → List (List D) → M B (List (List D))
  unfolding max_into max_values
  max_loop arg batch_size [] outs = lift B (ok outs)
  max_loop arg batch_size (pair ∷ pairs) outs = do
    a ← lift B (deref (get_elem? arg (pair.0)))
    h ← object_at B a
    values ← max_values batch_size h
    out ← lift B (deref (get_elem? outs (pair.1)))
    merged ← lift B (max_into out values)
    max_loop arg batch_size pairs (set outs (pair.1) merged)

  pub write_max : ℕ → List D → M B (Unit {0})
  write_max out values = do
    o ← object_at B out
    let encrypted = do
      c ←
          lift B
            (encrypt B values ElementType.f32 first_chain_index backend_scale o.complex_packing)
      q ← cipher_of B out
      put_cell B q c
    if o.is_plain then set_plaintext B out values else encrypted

  pub write_loop : List ℕ → List (List D) → List ℕ → M B (Unit {0})
  unfolding write_max
  write_loop out outs [] = lift B (ok tt)
  write_loop out outs (i ∷ is) = do
    o ← lift B (deref (get_elem? out i))
    values ← lift B (deref (get_elem? outs i))
    write_max o values
    write_loop out outs is

  unfoldable pub max_seal : List ℕ → List ℕ → List ℕ → List ℕ → List ℕ → ℕ → M B (Unit {0})
  unfolding reduced_pairs max_loop write_loop
  max_seal arg out in_shape out_shape reduction_axes batch_size = do
    let smallest = replicate (length out) (replicate batch_size minus_infinity)
    outs ← max_loop arg batch_size (reduced_pairs in_shape out_shape reduction_axes) smallest
    let output = of_shape out_shape
    write_loop out outs (map (index output) (coords output))

  -- `arg[i]` for each index of a window.
  pub elements_at : List ℕ → List ℕ → M B (List ℕ)
  elements_at arg [] = lift B (ok [])
  elements_at arg (i ∷ is) = do
    a ← lift B (deref (get_elem? arg i))
    rest ← elements_at arg is
    lift B (ok (a ∷ rest))

  pub max_pool_loop : List ℕ → List ℕ → List (List ℕ) → ℕ → M B (Unit {0})
  unfolding elements_at
  max_pool_loop arg out [] out_idx = lift B (ok tt)
  max_pool_loop arg out (max_list ∷ max_lists) out_idx = do
    max_args ← elements_at arg max_list
    o ← lift B (deref (get_elem? out out_idx))
    h ← object_at B o
    max_seal max_args (o ∷ []) (length max_list ∷ []) [] (0 ∷ []) h.batch_size
    max_pool_loop arg out max_lists (out_idx + 1)

  unfoldable pub max_pool_seal :
      List ℕ → List ℕ → List ℕ → List ℕ → List ℕ → List ℕ → List ℕ → List ℕ → M B (Unit {0})
  unfolding max_pool_loop
  max_pool_seal arg out arg_shape out_shape window_shape strides padding_below padding_above = do
    max_lists ← lift B (
        max_pool_seal_max_list N arg_shape out_shape window_shape strides padding_below
          padding_above)
    max_pool_loop arg out max_lists 0

  clear_loop : List ℕ → HeType D → List ℕ → M B (Unit {0})
  clear_loop out h [] = lift B (ok tt)
  clear_loop out h (i ∷ is) = do
    o ← lift B (deref (get_elem? out i))
    put_object B o h
    clear_loop out h is

  -- Zeros with the batch size and the packing of the first element, if there is one.
  zeros_like : List ℕ → M B (HeType D)
  zeros_like [] = lift B (ok (of_plaintext (replicate 1 zero_d) false))
  zeros_like (a ∷ rest) = do
    h ← object_at B a
    lift B (ok (of_plaintext (replicate h.batch_size zero_d) h.complex_packing))

  sum_loop : List ℕ → List ℕ → List (ℕ × ℕ) → M B (Unit {0})
  sum_loop arg out [] = lift B (ok tt)
  sum_loop arg out (pair ∷ pairs) = do
    a ← lift B (deref (get_elem? arg (pair.0)))
    o ← lift B (deref (get_elem? out (pair.1)))
    scalar_add_seal B a o o
    sum_loop arg out pairs

  unfoldable pub sum_seal :
      List ℕ → List ℕ → List ℕ → List ℕ → List ℕ → ElementType → M B (Unit {0})
  unfolding reduced_pairs clear_loop zeros_like sum_loop
  sum_seal arg out in_shape out_shape reduction_axes element_type = do
    lift B (require (is_supported_type element_type) check_failed)
    zeros ← zeros_like arg
    let output = of_shape out_shape
    clear_loop out zeros (map (index output) (coords output))
    sum_loop arg out (reduced_pairs in_shape out_shape reduction_axes)
