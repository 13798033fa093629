-- ===== src/Cipher/PlainOps/Lazy.antt =====
-- Multiplication by one value, reduced at once or lazily: both leave the products modulo the
-- coefficient moduli.
use he_transformer_research.Base.{
  ℕ, ◌*◌, ◌%◌, ◌^◌, ◌<◌, ◌≡◌, refl, ap, List, [], ◌∷◌, length, map, All, take-length, lt→ltb,
  Result, ok, ◌>>=◌, arith,
}
use he_transformer_research.SealUtil.Words.{
  u64_mod, Modulus, IsModulus, IsHighWord, mod_reduce_poly, lazy_multiply,
}
use he_transformer_research.SealUtil.Words.Barrett.{
  multiply_poly_scalar_coeffmod64-eq_products, lazy_multiply-mod_reduce, lazy_multiply-eq_low_words,
}
use he_transformer_research.Cipher.PlainOps.{residue_loop, poly_loop, multiply_residue}
use he_transformer_research.Backend.{Backend}

-- The specification: each coefficient times the value of its residue, modulo its modulus.
pub products : List Modulus → List ℕ → List (List ℕ) → List (List ℕ)
products (m ∷ ms) (v ∷ vs) (r ∷ rs) = map (λ p. p * v % m.value) r ∷ products ms vs rs
products _ _ _ = []

-- Moduli below 2^31 that SEAL made, values and coefficients that are residues, and `count`
-- coefficients in each residue.
abbrev pub Fits : ℕ → List Modulus → List ℕ → List (List ℕ) → Type 0
Fits count [] vs rs = Unit
Fits count (m ∷ ms) (v ∷ vs) (r ∷ rs) =
    IsModulus m
    × (m.value < 2 ^ 31)
    × (v < m.value)
    × All (λ p. p < m.value) r
    × (length r ≡ count)
    × Fits count ms vs rs
Fits count (m ∷ ms) _ _ = ⊥

low_words : List Modulus → List ℕ → List (List ℕ) → List (List ℕ)
low_words (m ∷ ms) (v ∷ vs) (r ∷ rs) = map (λ p. p * v % u64_mod) r ∷ low_words ms vs rs
low_words _ _ _ = []

map_id {ℓ} : {A : Type ℓ} (xs : List A) → map (λ x. x) xs ≡ xs
map_id [] = refl
map_id (x ∷ xs) = ap (λ l. x ∷ l) (map_id xs)

poly_loop-eq_map :
    (f : List (List ℕ) → Result (List (List ℕ))) (g h : List (List ℕ) → List (List ℕ))
    (P : List (List ℕ) → Type 0)
    → ((p : List (List ℕ)) → P p → f (h p) ≡ ok (g p))
    → (polys : List (List (List ℕ))) → All P polys
    → poly_loop f (map h polys) ≡ ok (map g polys)
unfolding poly_loop
poly_loop-eq_map f g h P each [] a = refl
poly_loop-eq_map f g h P each (p ∷ polys) a =
    rw (each p a.0, poly_loop-eq_map f g h P each polys a.1)

module _ (B : Backend) (high : IsHighWord B.hw64) where
  open B use {hw64, coeff_count}

  abbrev eager_residues : List Modulus → List ℕ → List (List ℕ) → Result (List (List ℕ))
  eager_residues = residue_loop (multiply_residue B)

  abbrev lazy_residues : List Modulus → List ℕ → List (List ℕ) → Result (List (List ℕ))
  lazy_residues = residue_loop (λ r v m. lazy_multiply r coeff_count v)

  abbrev reduced_residues : List Modulus → List (List ℕ) → Result (List (List ℕ))
  reduced_residues ms =
      residue_loop (λ r v m. mod_reduce_poly hw64 r coeff_count m) ms (map (λ m. 0) ms)

  reduced_residue :
      (m : Modulus) (v : ℕ) (r : List ℕ)
      → IsModulus m
      → m.value < 2 ^ 31
      → v < m.value
      → All (λ p. p < m.value) r
      → length r ≡ coeff_count
      → mod_reduce_poly hw64 (map (λ p. p * v % u64_mod) r) coeff_count m
        ≡ ok (map (λ p. p * v % m.value) r)
  reduced_residue m v r wf small hv hr len =
      let n = length r in
      let both = lazy_multiply-mod_reduce hw64 high m wf r v small hv hr in
      let direct =
        multiply_poly_scalar_coeffmod64-eq_products hw64 high m wf r n v small (omega arith) hv
          hr in
      let joined = rw (lazy_multiply-eq_low_words r v, direct, take-length r) at both in
      rw (← len) joined

  eager_residues-eq_products :
      (ms : List Modulus) (vs : List ℕ) (rs : List (List ℕ))
      → Fits coeff_count ms vs rs
      → eager_residues ms vs rs ≡ ok (products ms vs rs)
  unfolding residue_loop multiply_residue products
  eager_residues-eq_products [] vs rs f = refl
  eager_residues-eq_products (m ∷ ms) [] rs f = elim f [ ]
  eager_residues-eq_products (m ∷ ms) (v ∷ vs) [] f = elim f [ ]
  eager_residues-eq_products (m ∷ ms) (v ∷ vs) (r ∷ rs) (wf, small, hv, hr, len, f) =
      rw
        (
          lt→ltb m.value (2 ^ 31) small,
          ← len,
          multiply_poly_scalar_coeffmod64-eq_products hw64 high m wf r (length r) v small
              (omega arith) hv hr,
          take-length r,
        )
        (rw (eager_residues-eq_products ms vs rs f))

  lazy_residues-eq_low_words :
      (ms : List Modulus) (vs : List ℕ) (rs : List (List ℕ))
      → Fits coeff_count ms vs rs
      → lazy_residues ms vs rs ≡ ok (low_words ms vs rs)
  unfolding residue_loop low_words
  lazy_residues-eq_low_words [] vs rs f = refl
  lazy_residues-eq_low_words (m ∷ ms) [] rs f = elim f [ ]
  lazy_residues-eq_low_words (m ∷ ms) (v ∷ vs) [] f = elim f [ ]
  lazy_residues-eq_low_words (m ∷ ms) (v ∷ vs) (r ∷ rs) (wf, small, hv, hr, len, f) =
      rw (lazy_residues-eq_low_words ms vs rs f, ← len, lazy_multiply-eq_low_words r v)

  reduced_residues-low_words :
      (ms : List Modulus) (vs : List ℕ) (rs : List (List ℕ))
      → Fits coeff_count ms vs rs
      → reduced_residues ms (low_words ms vs rs) ≡ ok (products ms vs rs)
  unfolding residue_loop low_words products
  reduced_residues-low_words [] vs rs f = refl
  reduced_residues-low_words (m ∷ ms) [] rs f = elim f [ ]
  reduced_residues-low_words (m ∷ ms) (v ∷ vs) [] f = elim f [ ]
  reduced_residues-low_words (m ∷ ms) (v ∷ vs) (r ∷ rs) (wf, small, hv, hr, len, f) =
      let one : mod_reduce_poly hw64 (map (λ p. p * v % u64_mod) r) coeff_count m
          ≡ ok (map (λ p. p * v % m.value) r) =
        reduced_residue m v r wf small hv hr len in
      rw (one, reduced_residues-low_words ms vs rs f)

  -- Over moduli below 2^31, with a value and coefficients that are residues, `multiply_plain` leaves
  -- in every polynomial the products modulo the moduli; the lazy loops followed by those of
  -- `mod_reduce_seal` leave the same.
  pub lazy_then_reduce-eq_eager :
      (ms : List Modulus) (vs : List ℕ) (polys : List (List (List ℕ)))
      → All (Fits coeff_count ms vs) polys
      → (poly_loop (residue_loop (multiply_residue B) ms vs) polys
          ≡ ok (map (products ms vs) polys))
        × ((poly_loop (residue_loop (λ r v m. lazy_multiply r coeff_count v) ms vs) polys
              >>= poly_loop (
                  residue_loop
                    (λ r v m. mod_reduce_poly hw64 r coeff_count m)
                    ms
                    (map (λ m. 0) ms)))
            ≡ ok (map (products ms vs) polys))
  lazy_then_reduce-eq_eager ms vs polys fits =
      let P = Fits coeff_count ms vs in
      let low =
        poly_loop-eq_map (lazy_residues ms vs) (low_words ms vs) (λ p. p) P
          (lazy_residues-eq_low_words ms vs) polys fits in
      let high =
        poly_loop-eq_map (reduced_residues ms) (products ms vs) (low_words ms vs) P
          (reduced_residues-low_words ms vs) polys fits in
      let direct =
        poly_loop-eq_map (eager_residues ms vs) (products ms vs) (λ p. p) P
          (eager_residues-eq_products ms vs) polys fits in
      (rw (map_id polys) at direct, rw (rw (map_id polys) at low) high)
