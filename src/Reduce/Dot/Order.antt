-- ===== src/Reduce/Dot/Order.antt =====
-- The order of the rounds of the dot product, by the index of a round.
use native.Mathlib.Nat.{div-add-mod'}
use he_transformer_research.Base.{
  ℕ, zero, suc, ◌+◌, ◌*◌, ◌/◌, ◌%◌, ◌<◌, ◌≡◌, refl, ◌∙◌, ap, sym, some, List, [], ◌∷◌, ◌++◌, length,
  get_elem?, map, length-map, get_elem?-map, arith,
}
use he_transformer_research.Reduce.Dot.{projected_rounds}

module _ {ℓ} {A : Type ℓ} where
  get_elem?-after :
      (xs ys : List A) (i j : ℕ) → j ≡ length xs + i → get_elem? (xs ++ ys) j ≡ get_elem? ys i
  get_elem?-after [] ys i j e = ap (get_elem? ys) (omega arith)
  get_elem?-after (x ∷ xs) ys i zero e = absurd (omega arith)
  get_elem?-after (x ∷ xs) ys i (suc j) e = get_elem?-after xs ys i j (omega arith)

  get_elem?-before :
      (xs ys : List A) (i : ℕ) → i < length xs → get_elem? (xs ++ ys) i ≡ get_elem? xs i
  get_elem?-before [] ys i h = elim h [ ]
  get_elem?-before (x ∷ xs) ys zero h = refl
  get_elem?-before (x ∷ xs) ys (suc i) h = get_elem?-before xs ys i (omega arith)

  some-lt : (xs : List A) (i : ℕ) (a : A) → get_elem? xs i ≡ some a → i < length xs
  some-lt [] i a h = cc
  some-lt (x ∷ xs) zero a h = omega arith
  some-lt (x ∷ xs) (suc i) a h = omega (arith, some-lt xs i a h)

module _ {ℓ} {C R : Type ℓ} (at : C → C → R) (coords1 : List C) where
  rounds-at :
      (coords0 : List C) (i j : ℕ) (c0 c1 : C)
      → get_elem? coords0 i ≡ some c0
      → get_elem? coords1 j ≡ some c1
      → get_elem? (projected_rounds at coords0 coords1) (i * length coords1 + j) ≡ some (at c0 c1)
  unfolding projected_rounds
  rounds-at [] i j c0 c1 h0 h1 = cc
  rounds-at (c ∷ coords0) zero j c0 c1 h0 h1 =
      let inside : j < length (map (at c) coords1) =
        omega (arith, some-lt coords1 j c1 h1, length-map coords1 (at c)) in
      let same : c ≡ c0 = cc in
      ap (get_elem? (map (at c) coords1 ++ projected_rounds at coords0 coords1)) (omega arith)
      ∙ get_elem?-before (map (at c) coords1) (projected_rounds at coords0 coords1) j inside
      ∙ get_elem?-map (at c) coords1 j h1
      ∙ ap (λ x. some (at x c1)) same
  rounds-at (c ∷ coords0) (suc i) j c0 c1 h0 h1 =
      let index : suc i * length coords1 + j
          ≡ length (map (at c) coords1) + (i * length coords1 + j) =
        omega (arith, length-map coords1 (at c)) in
      get_elem?-after (map (at c) coords1) (projected_rounds at coords0 coords1)
        (i * length coords1 + j) (suc i * length coords1 + j) index
      ∙ rounds-at coords0 i j c0 c1 h0 h1

  -- Over two lists of coordinates, the round of index g is that of the coordinate of the first at g
  -- divided by the length of the second, and of the coordinate of the second at the remainder, where
  -- there are these coordinates.
  projected_rounds_lem :
      (coords0 : List C) (g : ℕ) (c0 c1 : C)
      → get_elem? coords0 (g / length coords1) ≡ some c0
      → get_elem? coords1 (g % length coords1) ≡ some c1
      → get_elem? (projected_rounds at coords0 coords1) g ≡ some (at c0 c1)
  projected_rounds_lem coords0 g c0 c1 h0 h1 =
      let n = length coords1 in
      let parts : g ≡ (g / n) * n + g % n = sym (div-add-mod' g n) in
      ap (get_elem? (projected_rounds at coords0 coords1)) parts
      ∙ rounds-at coords0 (g / n) (g % n) c0 c1 h0 h1
