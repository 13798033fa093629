-- ===== src/Calls.antt =====
-- `HESealExecutable::generate_calls` of src/seal/he_seal_executable.cpp: the kernel that an operation of
-- the graph calls. The elements that kernels create for themselves have the addresses from `temp` on.
pub mod Ops
pub mod Steps
use he_transformer_research.Base.{
  ℕ, ◌+◌, Bool, true, false, not, ◌&&◌, ◌||◌, Option, none, some, List, [], ◌∷◌, length, get_elem?,
  map, ltb, ◌==◌, elem, if◌then◌else◌, Result, ok, err, check_failed, ngraph_error, require, deref,
}
use he_transformer_research.HeUtil.{ElementType}
use he_transformer_research.Backend.{Backend}
use he_transformer_research.Machine.{HeType, M, lift, put_object, ◌>>=◌, ◌>>◌}
use he_transformer_research.Machine.Objects.{collect}
use he_transformer_research.Cipher.Rescale.{rescale_seal, mod_reduce_seal}
use he_transformer_research.Scalar.Loops.{
  add_seal, subtract_seal, multiply_seal, negate_seal, result_seal,
}
use he_transformer_research.Scalar.Decrypted.{
  minimum_seal, power_seal, divide_seal, exp_seal, relu_seal, bounded_relu_seal,
}
use he_transformer_research.Moves.{
  Coordinates, Diff, broadcast_seal, slice_seal, reverse_seal, reshape_seal, concat_seal,
}
use he_transformer_research.Pad.{PadMode, pad_seal}
use he_transformer_research.Reduce.{max_seal, max_pool_seal, sum_seal}
use he_transformer_research.Reduce.AvgPool.{avg_pool_seal}
use he_transformer_research.Reduce.Dot.{dot_seal}
use he_transformer_research.Reduce.Convolution.{convolution_seal}
use he_transformer_research.Reduce.Convolution.Window.{Attributes}
use he_transformer_research.Reduce.Softmax.{softmax_seal, batch_norm_inference_seal, constant_seal}
use he_transformer_research.Calls.Ops.{
  Arg, Op, add, divide, exp, minimum, multiply, negative, parameter, power, relu, result, subtract,
  unsupported, avg_pool, batch_norm_inference, bounded_relu, broadcast, max, reshape, reverse,
  softmax, sum, concat, dot, constant, convolution, max_pool, pad, slice, Context,
}
use he_transformer_research.Calls.Steps.{
  nth, eager, binary, moved, call_avg_pool, call_batch_norm, call_convolution, call_dot, call_relu,
  call_max, call_max_pool, call_multiply, call_slice, call_softmax, call_concat,
}

module _ (N : Coordinates) (B : Backend) where
  open B use {D}

  -- The kernel of an operation with one argument that is looked at, and its output.
  abbrev unary : (Arg → Arg → M B (Unit {0})) → List Arg → Arg → M B (Unit {0})
  unary kernel args out = do arg ← nth N B args 0; kernel arg out

  abbrev both : (Arg → Arg → Arg → M B (Unit {0})) → List Arg → Arg → M B (Unit {0})
  both kernel args out = do arg0 ← nth N B args 0; arg1 ← nth N B args 1; kernel arg0 arg1 out

  -- `out` is `out[0]`.
  unfoldable pub generate_call : Context B → ElementType → Op D → List Arg → Arg → M B (Unit {0})
  unfolding moved call_avg_pool call_batch_norm call_convolution call_dot call_relu call_max
      call_max_pool call_multiply call_slice call_softmax call_concat
  generate_call c type add args out =
      binary N B (λ x y o n. add_seal (eager N B) x y o n type) args out
  generate_call c type (avg_pool p padded) args out = unary (call_avg_pool N B c p padded) args out
  generate_call c type (batch_norm_inference eps) args out = call_batch_norm N B c eps args out
  generate_call c type (bounded_relu alpha) args out =
      unary
        (λ a o. (do output_size ← lift B a.batched_element_count; call_relu N B c (some alpha) a o))
        args out
  generate_call c type (broadcast axes) args out =
      unary
        (λ a o. moved N B (λ xs ys. broadcast_seal N xs ys a.packed_shape o.packed_shape axes) a o)
        args out
  generate_call c type (concat axis) args out = call_concat N B axis args out
  generate_call c type (constant data_ptr) args out = do
    count ← lift B out.batched_element_count
    constant_seal B out.m_data type data_ptr count
  generate_call c type (convolution a) args out = both (call_convolution N B c a type) args out
  generate_call c type divide args out =
      binary N B (λ x y o n. divide_seal B c.temp x y o n type) args out
  generate_call c type (dot count) args out = both (call_dot N B c count type) args out
  generate_call c type exp args out = do
    lift B (require (not c.enable_client) check_failed)
    arg ← nth N B args 0
    count ← lift B arg.batched_element_count
    exp_seal B arg.m_data out.m_data count
  generate_call c type (max axes) args out = unary (call_max N B c axes) args out
  generate_call c type (max_pool p) args out = unary (call_max_pool N B c p) args out
  generate_call c type minimum args out = binary N B (minimum_seal B) args out
  generate_call c type multiply args out = both (call_multiply N B type) args out
  generate_call c type negative args out = do
    arg ← nth N B args 0
    count ← lift B out.batched_element_count
    negate_seal B arg.m_data out.m_data count type
  generate_call c type (pad below above mode) args out =
      both
        (λ a v o. (do
          value ← collect B v.m_data
          moved N B (λ xs ys. pad_seal N xs value ys a.packed_shape o.packed_shape below above mode)
              a o))
        args out
  generate_call c type parameter args out = lift B (ok tt)
  generate_call c type power args out =
      both (λ x y o. power_seal B x.m_data y.m_data o.m_data (length o.m_data) type) args out
  generate_call c type relu args out = unary (call_relu N B c none) args out
  generate_call c type (reshape order) args out =
      unary
        (λ a o. moved N B (λ xs ys. reshape_seal N xs ys a.packed_shape order o.packed_shape) a o)
        args out
  generate_call c type result args out = do
    arg ← nth N B args 0
    count ← lift B out.batched_element_count
    result_seal B arg.m_data out.m_data count
  generate_call c type (reverse axes) args out =
      unary
        (λ a o. moved N B (λ xs ys. reverse_seal N xs ys a.packed_shape o.packed_shape axes) a o)
        args out
  generate_call c type (slice lower upper strides) args out =
      unary (call_slice N B lower upper strides) args out
  generate_call c type (softmax axes) args out = unary (call_softmax N B c axes type) args out
  generate_call c type subtract args out =
      binary N B (λ x y o n. subtract_seal B x y o n type) args out
  generate_call c type (sum axes) args out =
      unary (λ a o. sum_seal N B a.m_data o.m_data a.packed_shape o.packed_shape axes type) args out
  generate_call c type unsupported args out = lift B (err ngraph_error)

  unfoldable pub generate_calls :
      Context B → ElementType → Op D → List Arg → List Arg → M B (Unit {0})
  unfolding generate_call
  generate_calls c type parameter args outs = lift B (ok tt)
  generate_calls c type unsupported args outs = lift B (err ngraph_error)
  generate_calls c type op args outs = do out ← nth N B outs 0; generate_call c type op args out
