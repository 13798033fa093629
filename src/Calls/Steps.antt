-- ===== src/Calls/Steps.antt =====
-- The cases of `HESealExecutable::generate_calls` of src/seal/he_seal_executable.cpp that do more than
-- call a kernel. The elements that kernels create for themselves have the addresses from `temp` on.
use he_transformer_research.Base.{
  ℕ, Bool, false, not, ◌||◌, Option, none, some, List, [], ◌∷◌, length, get_elem?, map, ◌==◌, elem,
  if◌then◌else◌, Result, ok, check_failed, require, deref,
}
use he_transformer_research.HeUtil.{ElementType}
use he_transformer_research.Backend.{Backend}
use he_transformer_research.Machine.{HeType, M, lift, put_object, ◌>>=◌, ◌>>◌}
use he_transformer_research.Machine.Objects.{collect}
use he_transformer_research.Cipher.Rescale.{rescale_seal, mod_reduce_seal}
use he_transformer_research.Scalar.Loops.{multiply_seal}
use he_transformer_research.Scalar.Decrypted.{relu_seal, bounded_relu_seal}
use he_transformer_research.Moves.{Coordinates, slice_seal, concat_seal}
use he_transformer_research.Reduce.{max_seal, max_pool_seal}
use he_transformer_research.Reduce.AvgPool.{avg_pool_seal}
use he_transformer_research.Reduce.Dot.{dot_seal}
use he_transformer_research.Reduce.Convolution.{convolution_seal}
use he_transformer_research.Reduce.Convolution.Window.{Attributes}
use he_transformer_research.Reduce.Softmax.{softmax_seal, batch_norm_inference_seal}
use he_transformer_research.Calls.Ops.{Arg, Pooling, Context, slice_upper_bounds}

module _ (N : Coordinates) (B : Backend) where
  open B use {D, lazy_mod}

  abbrev pub nth : List Arg → ℕ → M B Arg
  nth args i = lift B (deref (get_elem? args i))

  -- The backend while a single addition or multiplication has lazy reduction off.
  abbrev pub eager : Backend
  eager = record B { lazy_mod = false }

  -- A kernel that only moves elements, on the objects.
  unfoldable pub store_all : List ℕ → List (HeType D) → M B (Unit {0})
  store_all [] hs = lift B (ok tt)
  store_all (a ∷ rest) [] = lift B (ok tt)
  store_all (a ∷ rest) (h ∷ hs) = do put_object B a h; store_all rest hs

  unfoldable pub moved :
      (List (HeType D) → List (HeType D) → Result (List (HeType D))) → Arg → Arg → M B (Unit {0})
  unfolding store_all
  moved kernel arg out = do
    values ← collect B arg.m_data
    old ← collect B out.m_data
    new ← lift B (kernel values old)
    store_all out.m_data new

  unfoldable pub collect_all : List Arg → M B (List (List (HeType D)))
  collect_all [] = lift B (ok [])
  collect_all (arg ∷ args) = do
    values ← collect B arg.m_data
    rest ← collect_all args
    lift B (ok (values ∷ rest))

  unfoldable pub reduce_and_rescale : Arg → M B (Unit {0})
  reduce_and_rescale out = do
    (if lazy_mod then mod_reduce_seal B out.m_data else lift B (ok tt))
    rescale_seal B out.m_data

  -- `NGRAPH_CHECK(output_size == args[0]->data().size(), …)`
  unfoldable pub check_size : Arg → M B ℕ
  check_size arg = do
    output_size ← lift B arg.batched_element_count
    lift B (require (output_size == length arg.m_data) check_failed)
    lift B (ok output_size)

  abbrev pub binary :
      (List ℕ → List ℕ → List ℕ → ℕ → M B (Unit {0})) → List Arg → Arg → M B (Unit {0})
  binary kernel args out = do
    arg0 ← nth args 0
    arg1 ← nth args 1
    count ← lift B out.batched_element_count
    kernel arg0.m_data arg1.m_data out.m_data count

  unfoldable pub call_avg_pool : Context B → Pooling → Bool → Arg → Arg → M B (Unit {0})
  unfolding reduce_and_rescale
  call_avg_pool c p include_padding arg out = do
    avg_pool_seal N B c.temp c.inverse arg.m_data out.m_data arg.packed_shape out.packed_shape
        p.window_shape p.window_movement_strides p.padding_below p.padding_above include_padding
    reduce_and_rescale out

  unfoldable pub call_batch_norm : Context B → D → List Arg → Arg → M B (Unit {0})
  call_batch_norm c eps args out = do
    lift B (require (length args == 5) check_failed)
    gamma ← nth args 0
    beta ← nth args 1
    input ← nth args 2
    mean ← nth args 3
    variance ← nth args 4
    batch_norm_inference_seal B N c.temp c.sqrt eps gamma.m_data beta.m_data input.m_data
        mean.m_data variance.m_data out.m_data input.packed_shape c.batch_size

  unfoldable pub call_convolution :
      Context B → Attributes → ElementType → Arg → Arg → Arg → M B (Unit {0})
  unfolding reduce_and_rescale
  call_convolution c a type arg0 arg1 out = do
    convolution_seal N B c.temp arg0.m_data arg1.m_data out.m_data arg0.packed_shape
        arg1.packed_shape out.packed_shape a type c.batch_size
    reduce_and_rescale out

  unfoldable pub call_dot : Context B → ℕ → ElementType → Arg → Arg → Arg → M B (Unit {0})
  unfolding reduce_and_rescale
  call_dot c reduction_axes_count type arg0 arg1 out = do
    dot_seal N B c.temp arg0.m_data arg1.m_data out.m_data arg0.packed_shape arg1.packed_shape
        out.packed_shape reduction_axes_count type c.batch_size
    reduce_and_rescale out

  -- The rectifiers: without a bound, and with one.
  unfoldable pub call_relu : Context B → Option D → Arg → Arg → M B (Unit {0})
  unfolding check_size
  call_relu c bound arg out =
      let local : M B (Unit {0}) = (do
        output_size ← check_size arg
        elim bound [
          | none ↦ relu_seal B arg.m_data out.m_data output_size
          | some alpha ↦ bounded_relu_seal B arg.m_data out.m_data alpha output_size
        ]) in
      if c.enable_client then c.server_relu_op bound arg out else local

  unfoldable pub call_max : Context B → List ℕ → Arg → Arg → M B (Unit {0})
  unfolding check_size
  call_max c reduction_axes arg out = do
    lift B (require (not arg.is_packed || not (elem 0 reduction_axes)) check_failed)
    lift B (require (not c.enable_client) check_failed)
    output_size ← check_size arg
    max_seal N B arg.m_data out.m_data arg.packed_shape out.packed_shape reduction_axes
        out.batch_size

  unfoldable pub call_max_pool : Context B → Pooling → Arg → Arg → M B (Unit {0})
  unfolding check_size
  call_max_pool c p arg out =
      let local : M B (Unit {0}) = (do
        output_size ← check_size arg
        max_pool_seal N B arg.m_data out.m_data arg.packed_shape out.packed_shape p.window_shape
            p.window_movement_strides p.padding_below p.padding_above) in
      if c.enable_client then c.server_max_pool_op p arg out else local

  unfoldable pub call_multiply : ElementType → Arg → Arg → Arg → M B (Unit {0})
  call_multiply type arg0 arg1 out = do
    count ← lift B out.batched_element_count
    multiply_seal eager arg0.m_data arg1.m_data out.m_data count type
    rescale_seal B out.m_data

  unfoldable pub call_slice : List ℕ → List ℕ → List ℕ → Arg → Arg → M B (Unit {0})
  unfolding slice_upper_bounds moved
  call_slice lower upper strides arg out = do
    upper' ← lift B (slice_upper_bounds upper arg.packed_shape out.batch_size)
    moved (λ xs ys. slice_seal N xs ys arg.packed_shape lower upper' strides out.packed_shape) arg
        out

  unfoldable pub call_softmax : Context B → List ℕ → ElementType → Arg → Arg → M B (Unit {0})
  call_softmax c axes type arg out = do
    lift B (require (not arg.is_packed || not (elem 0 axes)) check_failed)
    softmax_seal B N c.temp arg.m_data out.m_data arg.packed_shape axes type

  unfoldable pub call_concat : ℕ → List Arg → Arg → M B (Unit {0})
  unfolding collect_all store_all
  call_concat axis args out = do
    in_args ← collect_all args
    old ← collect B out.m_data
    new ← lift B (concat_seal N in_args old (map (λ a. a.packed_shape) args) out.packed_shape axis)
    store_all out.m_data new
