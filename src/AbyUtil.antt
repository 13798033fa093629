-- ===== src/AbyUtil.antt =====
-- `split_vector` of src/aby/aby_util.hpp: a vector's indices in nearly equal ranges. The source
-- takes the quotient through a `double`; the model is exact, so it stands for sizes below 2^53.
pub mod Balance
use he_transformer_research.Base.{
  ℕ, zero, suc, ◌+◌, ◌-◌, ◌*◌, ◌/◌, List, [], ◌∷◌, ltb, ◌==◌, if◌then◌else◌, Result, ok, err,
  undefined,
}

-- The loop from `split_idx`, with `left` rounds to go; `previous` is `splits[split_idx - 1].second`.
pub split_loop : ℕ → ℕ → ℕ → ℕ → ℕ → ℕ → List (ℕ × ℕ)
split_loop vector_size num_splits split_size zero split_idx previous = []
split_loop vector_size num_splits split_size (suc left) split_idx previous =
    let splits_extra = vector_size - num_splits * split_size in
    let start_idx = if ltb 0 split_idx then previous else 0 in
    let even = start_idx + split_size in
    let extended = if ltb split_idx splits_extra then even + 1 else even in
    let end_idx = if split_idx == num_splits - 1 then vector_size else extended in
    (start_idx, end_idx) ∷ split_loop vector_size num_splits split_size left (split_idx + 1) end_idx

-- With no splits the division is by zero.
pub split_vector : ℕ → ℕ → Result (List (ℕ × ℕ))
split_vector vector_size num_splits =
    if num_splits == 0
    then err undefined
    else ok (split_loop vector_size num_splits (vector_size / num_splits) num_splits 0 0)
