-- ===== src/Aby/Numbers.antt =====
-- The conversions between words and values of `double` in src/aby, and what they take from C++.
use he_transformer_research.Base.{
  ℕ, zero, suc, ◌-◌, ◌/◌, Bool, ltb, ◌&&◌, if◌then◌else◌, Result, ok, err, undefined, check_failed,
  require, ◌>>=◌, ◌>>◌,
}
use he_transformer_research.Backend.{Backend}

-- A `uint64_t` as a `double`, a `double` of an integral value as a `uint64_t`, `std::round` and the same,
-- `std::ceil`, `x / 2.`, `w / 2.0` of a word, and `std::abs(x) < 1e-3f`.
pub record Numbers (B : Backend) : Type 0 where
  pub of_word : ℕ → B.D
  pub to_u64 : B.D → ℕ
  pub round_word : B.D → ℕ
  pub ceil : B.D → B.D
  pub half : B.D → B.D
  pub half_of : ℕ → B.D
  pub is_close : B.D → Bool

module _ (B : Backend) (numbers : Numbers B) where
  open B use {D, zero_d, one_d, add, sub, mul, divide, neg, less, less_equal}
  open numbers use {of_word, round_word, ceil, half}

  -- The warning for a value that is too large is left out.
  unfoldable pub uint64_to_double : ℕ → ℕ → D → D
  uint64_to_double i q scale =
      if ltb (q / 2) i
      then divide (of_word (i - q / 2)) scale
      else divide (of_word (q / 2 - i)) (neg scale)

  -- `while (d < -q / 2) d += q`, for so many rounds: a loop that does not end is undefined.
  unfoldable pub raise_loop : ℕ → D → D → Result D
  raise_loop zero d q = err undefined
  raise_loop (suc rounds) d q =
      let rest = raise_loop rounds (add d q) q in if less d (half (neg q)) then rest else ok d

  -- `while (d > q / 2) d -= q`
  unfoldable pub lower_loop : ℕ → D → D → Result D
  lower_loop zero d q = err undefined
  lower_loop (suc rounds) d q =
      let rest = lower_loop rounds (sub d q) q in if less (half q) d then rest else ok d

  unfoldable pub mod_reduce_zero_centered : ℕ → D → D → Result D
  unfolding raise_loop lower_loop
  mod_reduce_zero_centered rounds d q = do
    require (less_equal zero_d q) check_failed
    let raised = add d (mul (ceil (sub (half (neg one_d)) (divide d q))) q)
    let lowered = sub d (mul (ceil (sub (divide d q) (half one_d))) q)
    let first = if less d (half (neg q)) then raised else (if less (half q) d then lowered else d)
    second ← raise_loop rounds first q
    third ← lower_loop rounds second q
    require (less_equal third (half q) && less_equal (half (neg q)) third) check_failed
    ok third

  -- The client's word for a value: negative values and zero are moved up by `q`.
  unfoldable pub client_word : ℕ → D → ℕ → D → Result ℕ
  unfolding mod_reduce_zero_centered
  client_word rounds v lowest_coeff_modulus scale = do
    relu_val ← mod_reduce_zero_centered rounds v (divide (of_word lowest_coeff_modulus) scale)
    let product = mul relu_val scale
    ok (
        round_word (
          if less_equal relu_val zero_d
          then add product (of_word lowest_coeff_modulus)
          else product))
