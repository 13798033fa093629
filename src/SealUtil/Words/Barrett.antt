-- ===== src/SealUtil/Words/Barrett.antt =====
-- The Barrett reductions give the remainder, so a product by a scalar, reduced at once or lazily,
-- is the product modulo the coefficient modulus.
use native.Mathlib.Nat.{
  mul-le-mul_left, mul-le-mul_right, mod-eq_of_lt, le_of_mul-le-mul_right, lt_of_mul-lt-mul_right,
  mul-add-mod_self_right, mod-eq-sub-mod, add-mod_right, div-mul-le_self, mul-le-mul, add-sub_of_le,
  lt-div-mul-add, div-lt_self,
}
use he_transformer_research.Base.{
  ℕ, zero, suc, ◌+◌, ◌-◌, ◌*◌, ◌/◌, ◌%◌, ◌^◌, ◌≤◌, ◌<◌, ◌≡◌, refl, ◌∙◌, sym, ap, List, [], ◌∷◌,
  arith, length, take, drop, All, zip_with, ◌++◌, map, ok, err, Result, ◌>>=◌, leb, Bool-cases, inl,
  inr,
}
use he_transformer_research.SealUtil.Words.{
  u64_mod, Modulus, IsModulus, IsHighWord, correction, reduce_word, multiply_poly_scalar_coeffmod64,
  mod_reduce_poly, lazy_multiply, lazy_add,
}

-- The estimate `c` of the quotient is at most one too small.
quotient_bounds :
    (w z q r c : ℕ)
    → z < w
    → r * q ≤ w
    → w < r * q + q
    → c * w ≤ z * r
    → z * r < c * w + w
    → 0 < q
    → (c * q ≤ z) × (z < c * q + q + q)
quotient_bounds w z q r c hz h1 h2 h3 h4 hq = (
  le_of_mul-le-mul_right {k = w} (omega (arith, mul-le-mul_right q h3, mul-le-mul_left z h1))
      (omega arith),
  lt_of_mul-lt-mul_right w
      (omega (arith, mul-le-mul_left z h2, mul-le-mul_right q h4, mul-le-mul_right q hz)),
)

-- A remainder below twice the modulus becomes the residue by one correction.
double_residue : (d q : ℕ) → d < q + q → (correction q d ≤ d) × (d - correction q d ≡ d % q)
double_residue d q h = elim (Bool-cases (leb q d)) [
  | inl big ↦
      let qd : q ≤ d = ground arith in
      rw big (
        qd,
        omega (
          arith,
          mod-eq-sub-mod {n = d} {m = q} qd,
          mod-eq_of_lt {n = d - q} {m = q} (omega arith),
        ),
      )
  | inr small ↦
      let dq : d < q = ground arith in rw small (omega arith, omega (arith, mod-eq_of_lt dq))
]

-- Subtraction of words does not wrap where the result is not negative.
wrap_sub : (w a b : ℕ) → b ≤ a → a < w → (a + w - b) % w ≡ a - b
wrap_sub w a b h lt =
    let e : a + w - b ≡ (a - b) + w = omega arith in
    rw e (add-mod_right (a - b) w ∙ mod-eq_of_lt (omega arith))

-- A product of two residues of a modulus below 2^31 does not wrap around.
product_bound : (p s q : ℕ) → p < q → s < q → q < 2 ^ 31 → p * s < u64_mod
product_bound p s q hp hs hq =
    let a : p ≤ 2 ^ 31 = omega arith in
    let b : s ≤ 2 ^ 31 = omega arith in omega (arith, mul-le-mul a b)

module _ (hw64 : ℕ → ℕ → ℕ) (high : IsHighWord hw64) (m : Modulus) (wf : IsModulus m) where
  open m use {value as q, const_ratio_1 as r}

  ratio_bounds : (r * q ≤ u64_mod) × (u64_mod < r * q + q) × (r < u64_mod)
  ratio_bounds =
      let pos : 0 < q = omega (arith, wf.positive) in
      rw wf.ratio (
        div-mul-le_self u64_mod q,
        lt-div-mul-add {a = u64_mod} {b = q} pos,
        div-lt_self {n = u64_mod} (omega arith) wf.positive,
      )

  -- For a modulus as SEAL makes it and the upper word of a product, the Barrett reduction of any word
  -- is its remainder.
  pub reduce_word-mod : (z : ℕ) → z < u64_mod → reduce_word hw64 m z ≡ z % q
  unfolding reduce_word
  reduce_word-mod z hz =
      let c : ℕ = hw64 z r in
      let pos : 0 < q = omega (arith, wf.positive) in
      let hc : c ≡ z * r / u64_mod = high z r hz ratio_bounds.2 in
      let (lo, hi) =
        quotient_bounds u64_mod z q r c hz ratio_bounds.0 ratio_bounds.1
          (rw hc (div-mul-le_self (z * r) u64_mod))
          (rw hc (lt-div-mul-add {a = z * r} {b = u64_mod} (omega arith))) pos in
      let (fits, residue) = double_residue (z - c * q) q (omega arith) in
      let first : (z + u64_mod - c * q % u64_mod) % u64_mod ≡ z - c * q =
        rw (mod-eq_of_lt {n = c * q} {m = u64_mod} (omega arith))
          (wrap_sub u64_mod z (c * q) lo hz) in
      let second = wrap_sub u64_mod (z - c * q) (correction q (z - c * q)) fits (omega arith) in
      let whole : (z - c * q) % q ≡ z % q =
        sym (mul-add-mod_self_right c q (z - c * q)) ∙ ap (λ t. t % q) (add-sub_of_le lo) in
      rw (first, second) (residue ∙ whole)

  -- For a modulus below 2^31 the eager product by a scalar is the product modulo the modulus, in
  -- each of the first `n` coefficients, where scalar and coefficients are residues.
  pub multiply_poly_scalar_coeffmod64-eq_products :
      (poly : List ℕ) (n scalar : ℕ)
      → q < 2 ^ 31
      → n ≤ length poly
      → scalar < q
      → All (λ p. p < q) poly
      → multiply_poly_scalar_coeffmod64 hw64 poly n scalar m
        ≡ ok (map (λ p. p * scalar % q) (take n poly))
  unfolding multiply_poly_scalar_coeffmod64
  multiply_poly_scalar_coeffmod64-eq_products poly zero scalar hq hn hs hp = refl
  multiply_poly_scalar_coeffmod64-eq_products [] (suc n) scalar hq hn hs hp = absurd (omega arith)
  multiply_poly_scalar_coeffmod64-eq_products (p ∷ poly) (suc n) scalar hq hn hs hp =
      let small = product_bound p scalar q hp.0 hs hq in
      rw (
        multiply_poly_scalar_coeffmod64-eq_products poly n scalar hq (omega arith) hs hp.1,
        mod-eq_of_lt {n = p * scalar} {m = u64_mod} small,
        reduce_word-mod (p * scalar) small,
      )

  -- Reduction of the first `n` words leaves their remainders and keeps the other words.
  pub mod_reduce_poly-eq_remainders :
      (poly : List ℕ) (n : ℕ)
      → n ≤ length poly
      → All (λ p. p < u64_mod) poly
      → mod_reduce_poly hw64 poly n m ≡ ok (map (λ p. p % q) (take n poly) ++ drop n poly)
  unfolding mod_reduce_poly
  mod_reduce_poly-eq_remainders poly zero hn hp = refl
  mod_reduce_poly-eq_remainders [] (suc n) hn hp = absurd (omega arith)
  mod_reduce_poly-eq_remainders (p ∷ poly) (suc n) hn hp =
      rw (mod_reduce_poly-eq_remainders poly n (omega arith) hp.1, reduce_word-mod p hp.0)

  -- Reduction after a loop that puts one more word in front.
  mod_reduce_poly-cons :
      (r : Result (List ℕ)) (x n : ℕ)
      → ((r >>= λ rest. ok (x ∷ rest)) >>= λ w. mod_reduce_poly hw64 w (suc n) m)
        ≡ ((r >>= λ w. mod_reduce_poly hw64 w n m) >>= λ rest. ok (reduce_word hw64 m x ∷ rest))
  unfolding mod_reduce_poly
  mod_reduce_poly-cons (ok ws) x n = refl
  mod_reduce_poly-cons (err e) x n = refl

  -- A lazy product that is reduced later is the eager product: for a modulus below 2^31, a scalar
  -- and coefficients that are residues, the two sequences of loops leave the same words.
  pub lazy_multiply-mod_reduce :
      (poly : List ℕ) (scalar : ℕ)
      → q < 2 ^ 31
      → scalar < q
      → All (λ p. p < q) poly
      → (lazy_multiply poly (length poly) scalar >>= λ w. mod_reduce_poly hw64 w (length poly) m)
        ≡ multiply_poly_scalar_coeffmod64 hw64 poly (length poly) scalar m
  unfolding lazy_multiply mod_reduce_poly multiply_poly_scalar_coeffmod64
  lazy_multiply-mod_reduce [] scalar hq hs hp = refl
  lazy_multiply-mod_reduce (p ∷ poly) scalar hq hs hp =
      mod_reduce_poly-cons (lazy_multiply poly (length poly) scalar) (p * scalar % u64_mod)
        (length poly)
      ∙ rw (lazy_multiply-mod_reduce poly scalar hq hs hp.1)

  -- Two words that are added lazily and reduced later have the remainder of their sum, where both
  -- words are below 2^63.
  pub lazy_add-mod_reduce :
      (xs ys : List ℕ)
      → length xs ≡ length ys
      → All (λ p. p < 2 ^ 63) xs
      → All (λ p. p < 2 ^ 63) ys
      → (lazy_add xs ys (length xs) >>= λ w. mod_reduce_poly hw64 w (length xs) m)
        ≡ ok (zip_with (λ a b. (a + b) % q) xs ys)
  unfolding lazy_add mod_reduce_poly
  lazy_add-mod_reduce [] ys e hx hy = refl
  lazy_add-mod_reduce (x ∷ xs) [] e hx hy = absurd (omega arith)
  lazy_add-mod_reduce (x ∷ xs) (y ∷ ys) e hx hy =
      let small : x + y < u64_mod = omega (arith, hx.0, hy.0) in
      mod_reduce_poly-cons (lazy_add xs ys (length xs)) ((x + y) % u64_mod) (length xs)
      ∙ rw (
        lazy_add-mod_reduce xs ys (omega arith) hx.1 hy.1,
        mod-eq_of_lt {n = x + y} {m = u64_mod} small,
        reduce_word-mod (x + y) small,
      )

-- Without reduction the loop leaves the low words of the products.
pub lazy_multiply-eq_low_words :
    (poly : List ℕ) (scalar : ℕ)
    → lazy_multiply poly (length poly) scalar ≡ ok (map (λ p. p * scalar % u64_mod) poly)
unfolding lazy_multiply
lazy_multiply-eq_low_words [] scalar = refl
lazy_multiply-eq_low_words (p ∷ poly) scalar = rw (lazy_multiply-eq_low_words poly scalar)
