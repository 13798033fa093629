-- ===== src/Reduce/Convolution/Window.antt =====
-- The coordinates that a convolution visits for one output, of src/seal/kernel/convolution_seal.cpp. A
-- `ptrdiff_t` is a difference.
use he_transformer_research.Base.{
  ℕ, zero, suc, ◌+◌, ◌*◌, ◌-◌, ◌%◌, List, [], ◌∷◌, length, get_elem?, set, replicate, ltb,
  if◌then◌else◌, Result, ok, undefined, require, deref, ◌>>=◌, ◌>>◌,
}
use he_transformer_research.SealUtil.Words.{u64_mod}
use he_transformer_research.Moves.{Coordinates, Diff, of_size}
use he_transformer_research.Reduce.Lists.{count_up}

-- The attributes of the operation, which are the same for every output.
pub record Attributes : Type 0 where
  pub window_movement_strides : List ℕ
  pub window_dilation_strides : List ℕ
  pub padding_below : List Diff
  pub padding_above : List Diff
  pub data_dilation_strides : List ℕ
  pub batch_axis_data : ℕ
  pub input_channel_axis_data : ℕ
  pub input_channel_axis_filters : ℕ
  pub output_channel_axis_filters : ℕ
  pub batch_axis_result : ℕ
  pub output_channel_axis_result : ℕ

-- The vectors that the two transforms of an output are made of.
pub record Window : Type 0 where
  pub start : List ℕ
  pub end : List ℕ
  pub movement_strides : List ℕ
  pub below : List Diff
  pub above : List Diff
  pub dilation_strides : List ℕ
  pub filter_start : List ℕ
  pub filter_end : List ℕ

-- `v[axis] = x`
unfoldable pub write_at : List ℕ → ℕ → ℕ → Result (List ℕ)
write_at v axis x = do require (ltb axis (length v)) undefined; ok (set v axis x)

-- The entries of one spatial dimension; an empty dimension of the filter wraps around.
unfoldable pub window_dim : Attributes → List ℕ → List ℕ → ℕ → Window → Result Window
unfolding write_at
window_dim a arg1_shape out_coord i w = do
  dilation ← deref (get_elem? a.window_dilation_strides (i - 2))
  movement ← deref (get_elem? a.window_movement_strides (i - 2))
  below_pad ← deref (get_elem? a.padding_below (i - 2))
  above_pad ← deref (get_elem? a.padding_above (i - 2))
  data_dilation ← deref (get_elem? a.data_dilation_strides (i - 2))
  o ← deref (get_elem? out_coord i)
  filter ← deref (get_elem? arg1_shape i)
  start ← write_at w.start i (movement * o)
  end ← write_at w.end i ((movement * o + (filter + (u64_mod - 1)) * dilation + 1) % u64_mod)
  movement_strides ← write_at w.movement_strides i dilation
  dilation_strides ← write_at w.dilation_strides i data_dilation
  filter_start ← write_at w.filter_start i 0
  filter_end ← write_at w.filter_end i filter
  ok (record {
    start = start;
    end = end;
    movement_strides = movement_strides;
    below = set w.below i below_pad;
    above = set w.above i above_pad;
    dilation_strides = dilation_strides;
    filter_start = filter_start;
    filter_end = filter_end;
  })

unfoldable pub window_dims : Attributes → List ℕ → List ℕ → ℕ → ℕ → Window → Result Window
unfolding window_dim
window_dims a arg1_shape out_coord zero i w = ok w
window_dims a arg1_shape out_coord (suc n) i w = do
  w' ← window_dim a arg1_shape out_coord i w
  window_dims a arg1_shape out_coord n (i + 1) w'

-- The batch and the channels, and then the spatial dimensions.
unfoldable pub window_of : Attributes → List ℕ → List ℕ → List ℕ → Result Window
unfolding write_at window_dims
window_of a arg0_shape arg1_shape out_coord = do
  let rank = length arg0_shape
  let zeros = replicate rank 0
  let none_padded = replicate rank (of_size 0)
  batch_index ← deref (get_elem? out_coord a.batch_axis_result)
  output_channel ← deref (get_elem? out_coord a.output_channel_axis_result)
  channels ← deref (get_elem? arg0_shape a.input_channel_axis_data)
  start ← write_at zeros a.batch_axis_data batch_index
  end ← write_at zeros a.batch_axis_data (batch_index + 1)
  start' ← write_at start a.input_channel_axis_data 0
  end' ← write_at end a.input_channel_axis_data channels
  filter_start ← write_at zeros a.output_channel_axis_filters output_channel
  filter_end ← write_at zeros a.output_channel_axis_filters (output_channel + 1)
  filter_start' ← write_at filter_start a.input_channel_axis_filters 0
  filter_end' ← write_at filter_end a.input_channel_axis_filters channels
  window_dims a arg1_shape out_coord (rank - 2) 2 (record {
    start = start';
    end = end';
    movement_strides = replicate rank 1;
    below = none_padded;
    above = none_padded;
    dilation_strides = replicate rank 1;
    filter_start = filter_start';
    filter_end = filter_end';
  })

module _ (N : Coordinates) where
  open N use {Transform, of_range, of_dilated, coords, index, has_source}

  -- The two iterators advance together; a coordinate in the padding or in a gap is left out.
  unfoldable pub factor_pairs : Transform → Transform → List (List ℕ) → List (List ℕ) → List (ℕ × ℕ)
  factor_pairs input filter [] filters = []
  factor_pairs input filter (c ∷ cs) [] = []
  factor_pairs input filter (c ∷ cs) (f ∷ fs) =
      let rest = factor_pairs input filter cs fs in
      if has_source input c then (index input c, index filter f) ∷ rest else rest

  unfoldable pub window_pairs : Window → List ℕ → List ℕ → List (ℕ × ℕ)
  unfolding factor_pairs
  window_pairs w arg0_shape arg1_shape =
      let input =
        of_dilated arg0_shape w.start w.end w.movement_strides (count_up (length arg0_shape) 0)
          w.below w.above w.dilation_strides in
      let filter = of_range arg1_shape w.filter_start w.filter_end in
      factor_pairs input filter (coords input) (coords filter)
