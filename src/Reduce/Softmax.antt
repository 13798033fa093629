-- ===== src/Reduce/Softmax.antt =====
-- The kernels composed of others over a coordinate transform: src/seal/kernel/softmax_seal.cpp and
-- src/seal/kernel/batch_norm_inference_seal.hpp, and src/seal/kernel/constant_seal.cpp.
-- The elements that a kernel creates for itself have the addresses from `temp` on for the call.
use he_transformer_research.Base.{
  ℕ, false, none, some, List, [], ◌∷◌, length, get_elem?, replicate, map, ◌==◌, ◌+◌, ok, err,
  check_failed, require, deref,
}
use he_transformer_research.HeUtil.{ElementType, type_to_double}
use he_transformer_research.Backend.{Backend}
use he_transformer_research.Machine.{
  M, lift, object_at, put_object, of_plaintext, set_plaintext, ◌>>=◌, ◌>>◌,
}
use he_transformer_research.Machine.Objects.{place}
use he_transformer_research.Scalar.Arith.{scalar_add_seal}
use he_transformer_research.Scalar.Negate.{scalar_subtract_seal}
use he_transformer_research.Scalar.Multiply.{scalar_multiply_seal}
use he_transformer_research.Scalar.Decrypted.{scalar_exp_seal, scalar_divide_seal}
use he_transformer_research.Moves.{Coordinates}
use he_transformer_research.Reduce.{reduced_pairs, max_seal, sum_seal}

module _ (B : Backend) where
  open B use {D, zero_d, add, sub, mul, divide, is_supported_type}

  module _ (N : Coordinates) where
    open N use {of_shape, coords, index, reduce, shape_size}

    -- `out = exp(arg - max)`, for each element and the maximum over its axes.
    unfoldable pub exp_loop : List ℕ → List ℕ → List ℕ → List (ℕ × ℕ) → M B (Unit {0})
    exp_loop arg temp_ptr out [] = lift B (ok tt)
    exp_loop arg temp_ptr out (pair ∷ pairs) = do
      a ← lift B (deref (get_elem? arg (pair.0)))
      t ← lift B (deref (get_elem? temp_ptr (pair.1)))
      o ← lift B (deref (get_elem? out (pair.0)))
      scalar_subtract_seal B a t o
      scalar_exp_seal B o o
      exp_loop arg temp_ptr out pairs

    -- `out = out / sum`; a quotient by plaintexts has its inverses at `tmp`.
    unfoldable pub divide_loop : ℕ → List ℕ → List ℕ → List (ℕ × ℕ) → M B (Unit {0})
    divide_loop tmp temp_ptr out [] = lift B (ok tt)
    divide_loop tmp temp_ptr out (pair ∷ pairs) = do
      t ← lift B (deref (get_elem? temp_ptr (pair.1)))
      o ← lift B (deref (get_elem? out (pair.0)))
      scalar_divide_seal B tmp o t o
      divide_loop tmp temp_ptr out pairs

    unfoldable pub softmax_seal :
        ℕ → List ℕ → List ℕ → List ℕ → List ℕ → ElementType → M B (Unit {0})
    unfolding exp_loop divide_loop
    softmax_seal temp arg out shape axes element_type = do
      lift B (require (is_supported_type element_type) check_failed)
      let temp_shape = reduce shape axes
      first ← lift B (elim (get_elem? arg 0) [ some a ↦ ok a | none ↦ err check_failed ])
      h ← object_at B first
      let zeros = of_plaintext (replicate h.batch_size zero_d) h.complex_packing
      temp_ptr ← place B (temp + 1) (replicate (shape_size temp_shape) zeros)
      max_seal N B arg temp_ptr shape temp_shape axes h.batch_size
      exp_loop arg temp_ptr out (reduced_pairs N B shape temp_shape axes)
      sum_seal N B out temp_ptr shape temp_shape axes element_type
      divide_loop temp temp_ptr out (reduced_pairs N B shape temp_shape axes)

    -- The one value of the plaintext of a channel.
    unfoldable pub channel_value : ℕ → M B D
    channel_value a = do
      h ← object_at B a
      lift B (require h.is_plain check_failed)
      lift B (require (length h.plain == 1) check_failed)
      lift B (deref (get_elem? h.plain 0))

    -- The loop over the coordinates; `sqrt` is `std::sqrt`. The scale has the address `temp`, and the
    -- bias the next one.
    unfoldable pub batch_norm_loop :
        ℕ
        → (D → D)
        → D
        → List ℕ
        → List ℕ
        → List ℕ
        → List ℕ
        → List ℕ
        → List ℕ
        → List (List ℕ × ℕ)
        → ℕ
        → M B (Unit {0})
    unfolding channel_value
    batch_norm_loop temp sqrt eps gamma beta input mean variance normed_input [] batch_size =
        lift B (ok tt)
    batch_norm_loop temp sqrt eps gamma beta input mean variance normed_input (place_of ∷ places)
          batch_size =
        do
          channel_num ← lift B (deref (get_elem? (place_of.0) 1))
          at_gamma ← lift B (deref (get_elem? gamma channel_num))
          at_beta ← lift B (deref (get_elem? beta channel_num))
          at_mean ← lift B (deref (get_elem? mean channel_num))
          at_var ← lift B (deref (get_elem? variance channel_num))
          channel_gamma ← channel_value at_gamma
          channel_beta ← channel_value at_beta
          channel_mean ← channel_value at_mean
          channel_var ← channel_value at_var
          let deviation = sqrt (add channel_var eps)
          let scale = divide channel_gamma deviation
          let bias = sub channel_beta (divide (mul channel_gamma channel_mean) deviation)
          put_object B temp (of_plaintext (replicate batch_size scale) false)
          put_object B (temp + 1) (of_plaintext (replicate batch_size bias) false)
          i ← lift B (deref (get_elem? input (place_of.1)))
          o ← lift B (deref (get_elem? normed_input (place_of.1)))
          scalar_multiply_seal B i temp o
          scalar_add_seal B o (temp + 1) o
          batch_norm_loop temp sqrt eps gamma beta input mean variance normed_input places
              batch_size

    unfoldable pub batch_norm_inference_seal :
        ℕ
        → (D → D)
        → D
        → List ℕ
        → List ℕ
        → List ℕ
        → List ℕ
        → List ℕ
        → List ℕ
        → List ℕ
        → ℕ
        → M B (Unit {0})
    unfolding batch_norm_loop
    batch_norm_inference_seal temp sqrt eps gamma beta input mean variance normed_input input_shape
          batch_size =
        let transform = of_shape input_shape in
        batch_norm_loop temp sqrt eps gamma beta input mean variance normed_input
          (map (λ c. (c, index transform c)) (coords transform)) batch_size

  -- The loop over the elements of a constant; `data` is what `data_ptr` points to.
  unfoldable pub constant_loop : List ℕ → ElementType → List D → M B (Unit {0})
  constant_loop [] element_type data_ptr = lift B (ok tt)
  constant_loop (o ∷ out) element_type data_ptr = do
    v ← lift B (deref (get_elem? data_ptr 0))
    d ← lift B (type_to_double element_type v)
    h ← object_at B o
    lift B (require h.is_plain check_failed)
    set_plaintext B o (d ∷ [])
    constant_loop out element_type (elim data_ptr [ [] ↦ [] | (x ∷ xs) ↦ xs ])

  unfoldable pub constant_seal : List ℕ → ElementType → List D → ℕ → M B (Unit {0})
  unfolding constant_loop
  constant_seal out element_type data_ptr count = do
    lift B (require (is_supported_type element_type) check_failed)
    lift B (require (length out == count) check_failed)
    constant_loop out element_type data_ptr
