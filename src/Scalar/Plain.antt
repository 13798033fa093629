-- ===== src/Scalar/Plain.antt =====
-- The kernels on two plaintexts, or on one: add_seal.cpp, subtract_seal.cpp, multiply_seal.cpp,
-- minimum_seal.cpp, power_seal.cpp, divide_seal.cpp, negate_seal.cpp, exp_seal.cpp, relu_seal.cpp and
-- bounded_relu_seal.cpp of src/seal/kernel.
pub mod Pointwise
use he_transformer_research.Base.{
  ℕ, Bool, List, [], ◌∷◌, map, zip_with, if◌then◌else◌, Result, ok, err, undefined, ◌>>=◌,
}
use he_transformer_research.Backend.{Backend}

-- The three branches that the binary kernels share: one value on the left, one on the right, or the
-- values in pairs up to the shorter length. The left branch has its own order of the operands.
unfoldable pub broadcast : {D : Type 0} → (D → D → D) → (D → D → D) → List D → List D → List D
broadcast left_op op (a ∷ []) arg1 = map (λ x. left_op a x) arg1
broadcast left_op op arg0 (b ∷ []) = map (λ x. op x b) arg0
broadcast left_op op arg0 arg1 = zip_with op arg0 arg1

module _ (B : Backend) where
  open B use {D, zero_d, add, sub, mul, divide, pow, exp, neg, less}

  unfoldable pub scalar_add_plain : List D → List D → List D
  unfolding broadcast
  scalar_add_plain = broadcast (λ a x. add x a) add

  pub scalar_subtract_plain : List D → List D → List D
  unfolding broadcast
  scalar_subtract_plain = broadcast sub sub

  unfoldable pub scalar_multiply_plain : List D → List D → List D
  unfolding broadcast
  scalar_multiply_plain = broadcast (λ a x. mul x a) mul

  -- `std::min(a, b)` is `b < a ? b : a`, `std::max(a, b)` is `a < b ? b : a`.
  pub min_d : D → D → D
  min_d a b = if less b a then b else a

  pub max_d : D → D → D
  max_d a b = if less a b then b else a

  pub scalar_minimum_plain : List D → List D → List D
  unfolding broadcast min_d
  scalar_minimum_plain = broadcast (λ a x. min_d x a) min_d

  pub scalar_power_plain : List D → List D → List D
  unfolding broadcast
  scalar_power_plain = broadcast pow pow

  -- `std::transform` over the first argument reads as many values of the second.
  pub scalar_divide_plain : List D → List D → Result (List D)
  scalar_divide_plain [] arg1 = ok []
  scalar_divide_plain (x ∷ arg0) [] = err undefined
  scalar_divide_plain (x ∷ arg0) (y ∷ arg1) =
      scalar_divide_plain arg0 arg1 >>= λ rest. ok (divide x y ∷ rest)

  pub scalar_negate_plain : List D → List D
  scalar_negate_plain = map neg

  pub scalar_exp_plain : List D → List D
  scalar_exp_plain = map exp

  pub scalar_relu_plain : List D → List D
  scalar_relu_plain = map (λ d. if less zero_d d then d else zero_d)

  pub scalar_bounded_relu_plain : D → List D → List D
  scalar_bounded_relu_plain alpha =
      map (λ f. if less alpha f then alpha else (if less zero_d f then f else zero_d))
