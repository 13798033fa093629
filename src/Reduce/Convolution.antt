-- ===== src/Reduce/Convolution.antt =====
-- The convolution of src/seal/kernel/convolution_seal.cpp. Its products and sums are those of the dot
-- product, with the same addresses from `temp` on.
pub mod Window
use he_transformer_research.Base.{ℕ, ◌+◌, List, [], ◌∷◌, ok, check_failed, require}
use he_transformer_research.HeUtil.{ElementType}
use he_transformer_research.Backend.{Backend}
use he_transformer_research.Machine.{M, lift, ◌>>=◌, ◌>>◌}
use he_transformer_research.Moves.{Coordinates}
use he_transformer_research.Reduce.Dot.{round, dot_loop}
use he_transformer_research.Reduce.Convolution.Window.{Attributes, window_of, window_pairs}

module _ (N : Coordinates) (B : Backend) where
  open N use {of_shape, coords}
  open B use {is_supported_type}

  -- The round of each output, by its place in the output.
  unfoldable pub convolution_loop :
      ℕ
      → List ℕ
      → List ℕ
      → List ℕ
      → ℕ
      → Attributes
      → List ℕ
      → List ℕ
      → List (List ℕ)
      → ℕ
      → M B (Unit {0})
  unfolding window_of window_pairs
  convolution_loop temp arg0 arg1 out batch_size a arg0_shape arg1_shape [] out_coord_idx =
      lift B (ok tt)
  convolution_loop temp arg0 arg1 out batch_size a arg0_shape arg1_shape (out_coord ∷ out_coords)
        out_coord_idx =
      do
        w ← lift B (window_of a arg0_shape arg1_shape out_coord)
        dot_loop N B temp arg0 arg1 out batch_size
            (round out_coord_idx (window_pairs N w arg0_shape arg1_shape) ∷ [])
        convolution_loop temp arg0 arg1 out batch_size a arg0_shape arg1_shape out_coords
            (out_coord_idx + 1)

  unfoldable pub convolution_seal :
      ℕ
      → List ℕ
      → List ℕ
      → List ℕ
      → List ℕ
      → List ℕ
      → List ℕ
      → Attributes
      → ElementType
      → ℕ
      → M B (Unit {0})
  unfolding convolution_loop
  convolution_seal temp arg0 arg1 out arg0_shape arg1_shape out_shape a element_type batch_size = do
    lift B (require (is_supported_type element_type) check_failed)
    convolution_loop temp arg0 arg1 out batch_size a arg0_shape arg1_shape
        (coords (of_shape out_shape)) 0
