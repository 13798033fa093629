-- ===== src/Calls/Ops.antt =====
-- The operations that `HESealExecutable::generate_calls` of src/seal/he_seal_executable.cpp knows. A
-- tensor is the addresses of its elements, with what the operations ask of it.
use he_transformer_research.Base.{
  ℕ, Bool, true, false, Option, List, [], ◌∷◌, ltb, ◌==◌, if◌then◌else◌, Result, Error, ok, err,
  check_failed,
}
use he_transformer_research.Backend.{Backend}
use he_transformer_research.Machine.{M}
use he_transformer_research.Moves.{Diff}
use he_transformer_research.Pad.{PadMode}
use he_transformer_research.Reduce.Convolution.Window.{Attributes}

pub record Arg : Type 0 where
  pub m_data : List ℕ
  pub packed_shape : List ℕ
  pub batch_size : ℕ
  pub is_packed : Bool
  pub batched_element_count : Result ℕ

-- The window of a pooling operation.
pub record Pooling : Type 0 where
  pub window_shape : List ℕ
  pub window_movement_strides : List ℕ
  pub padding_below : List ℕ
  pub padding_above : List ℕ

-- The operations that are supported, with their attributes, and all the others.
pub data Op (D : Type 0) : Type 0 where
  add divide exp minimum multiply negative parameter power relu result subtract unsupported : Op D
  avg_pool : Pooling → Bool → Op D
  batch_norm_inference bounded_relu : D → Op D
  broadcast max reshape reverse softmax sum : List ℕ → Op D
  concat dot : ℕ → Op D
  constant : List D → Op D
  convolution : Attributes → Op D
  max_pool : Pooling → Op D
  pad : List Diff → List Diff → PadMode → Op D
  slice : List ℕ → List ℕ → List ℕ → Op D

-- What an executable brings to an operation. The two functions stand for `handle_server_relu_op`, with
-- the bound if there is one, and `handle_server_max_pool_op`, which talk to the client.
pub record Context (B : Backend) : Type 0 where
  pub enable_client : Bool
  pub batch_size : ℕ
  pub temp : ℕ
  pub sqrt : B.D → B.D
  pub inverse : ℕ → B.D
  pub server_relu_op : Option B.D → Arg → Arg → M B (Unit {0})
  pub server_max_pool_op : Pooling → Arg → Arg → M B (Unit {0})

-- Upper bounds that are those of the unpacked shape are made those of the packed one.
unfoldable pub slice_upper_bounds : List ℕ → List ℕ → ℕ → Result (List ℕ)
slice_upper_bounds [] in_shape batch_size = ok []
slice_upper_bounds (upper ∷ bounds) [] batch_size = err Error.undefined
slice_upper_bounds (upper ∷ bounds) (size ∷ sizes) batch_size =
    if ltb size upper
    then elim (upper == batch_size) [ true ↦ ok (1 ∷ bounds) | false ↦ err check_failed ]
    else ok (upper ∷ bounds)
