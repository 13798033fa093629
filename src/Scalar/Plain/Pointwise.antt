-- ===== src/Scalar/Plain/Pointwise.antt =====
-- The binary kernels on plaintexts, value by value.
use he_transformer_research.Base.{
  get_elem?-map, ℕ, zero, suc, ◌<◌, min, ◌≡◌, refl, ◌∙◌, ◌==◌, if◌then◌else◌, Option, some, List,
  [], ◌∷◌, length, get_elem?, zip_with, arith, length-map,
}
use he_transformer_research.Backend.{Backend}
use he_transformer_research.Scalar.Plain.{broadcast, scalar_subtract_plain}

-- The value of an argument at `i`: one value stands for all.
unfoldable pub operand : {D : Type 0} → List D → ℕ → Option D
operand (a ∷ []) i = some a
operand xs i = get_elem? xs i

-- The length of a result.
unfoldable pub result_size : ℕ → ℕ → ℕ
result_size n k = if n == 1 then k else (if k == 1 then n else min n k)

length-zip_with :
    {D : Type 0} (f : D → D → D) (xs ys : List D)
    → length (zip_with f xs ys) ≡ min (length xs) (length ys)
length-zip_with f [] ys = omega arith
length-zip_with f (x ∷ xs) [] = omega arith
length-zip_with f (x ∷ xs) (y ∷ ys) = omega (arith, length-zip_with f xs ys)

pub length-broadcast :
    {D : Type 0} (g f : D → D → D) (xs ys : List D)
    → length (broadcast g f xs ys) ≡ result_size (length xs) (length ys)
unfolding broadcast result_size
length-broadcast g f (a ∷ []) ys = length-map ys (g a)
length-broadcast g f [] [] = refl
length-broadcast g f [] (b ∷ []) = refl
length-broadcast g f [] (b ∷ c ∷ ys) = ground arith
length-broadcast g f (a ∷ b ∷ xs) [] = ground arith
length-broadcast g f (a ∷ b ∷ xs) (c ∷ []) = ground (arith, length-map xs (λ x. f x c))
length-broadcast g f (a ∷ b ∷ xs) (c ∷ d ∷ ys) = ground (arith, length-zip_with f xs ys)

get_elem?-zip_with :
    {D : Type 0} (f : D → D → D) (xs ys : List D) (i : ℕ) {x y : D}
    → get_elem? xs i ≡ some x
    → get_elem? ys i ≡ some y
    → get_elem? (zip_with f xs ys) i ≡ some (f x y)
get_elem?-zip_with f [] ys i h k = cc
get_elem?-zip_with f (x ∷ xs) [] i h k = cc
get_elem?-zip_with f (x ∷ xs) (y ∷ ys) zero h k = ground arith
get_elem?-zip_with f (x ∷ xs) (y ∷ ys) (suc i) h k = get_elem?-zip_with f xs ys i h k

module _ {D : Type 0} (g f : D → D → D) (same : (a x : D) → g a x ≡ f a x) where
  pub broadcast_pointwise :
      (xs ys : List D) (i : ℕ) {x y : D}
      → i < result_size (length xs) (length ys)
      → operand xs i ≡ some x
      → operand ys i ≡ some y
      → get_elem? (broadcast g f xs ys) i ≡ some (f x y)
  unfolding broadcast operand result_size
  broadcast_pointwise (a ∷ []) [] i lt h k = cc
  broadcast_pointwise (a ∷ []) (b ∷ []) zero lt h k = ground (arith, same a b)
  broadcast_pointwise (a ∷ []) (b ∷ []) (suc i) lt h k = absurd (omega arith)
  broadcast_pointwise (a ∷ []) (b ∷ c ∷ ys) i {x} {y} lt h k =
      get_elem?-map (g a) (b ∷ c ∷ ys) i k ∙ ground (arith, same a y)
  broadcast_pointwise [] ys i lt h k = cc
  broadcast_pointwise (a ∷ b ∷ xs) [] i lt h k = cc
  broadcast_pointwise (a ∷ b ∷ xs) (c ∷ []) i {x} {y} lt h k =
      get_elem?-map (λ x. f x c) (a ∷ b ∷ xs) i h ∙ ground arith
  broadcast_pointwise (a ∷ b ∷ xs) (c ∷ d ∷ ys) i lt h k =
      get_elem?-zip_with f (a ∷ b ∷ xs) (c ∷ d ∷ ys) i h k

-- The difference of two plaintexts has `result_size` values, and each is the difference of the
-- operands at its place, where a plaintext of one value stands for that value at every place.
pub scalar_subtract_plain-pointwise :
    (B : Backend) (xs ys : List B.D) (i : ℕ) (x y : B.D)
    → i < result_size (length xs) (length ys)
    → operand xs i ≡ some x
    → operand ys i ≡ some y
    → (length (scalar_subtract_plain B xs ys) ≡ result_size (length xs) (length ys))
      × (get_elem? (scalar_subtract_plain B xs ys) i ≡ some (B.sub x y))
unfolding scalar_subtract_plain
scalar_subtract_plain-pointwise B xs ys i x y lt h k = (
  length-broadcast B.sub B.sub xs ys,
  broadcast_pointwise B.sub B.sub (λ a x. refl) xs ys i lt h k,
)
