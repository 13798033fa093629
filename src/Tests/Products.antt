-- ===== src/Tests/Products.antt =====
-- The theorem on the dot product at a concrete input: two vectors of two values.
use he_transformer_research.Base.{
  ℕ, zero, suc, ◌+◌, ◌<◌, ◌≡◌, ◌≢◌, refl, false, List, [], ◌∷◌, map, ok, arith,
}
use he_transformer_research.HeUtil.{ElementType}
use he_transformer_research.Machine.{Mem, of_plaintext, update}
use he_transformer_research.Moves.{Coordinates}
use he_transformer_research.Reduce.Dot.{dot_seal, dot_rounds, dot_pairs, projected_rounds}
use he_transformer_research.Reduce.Dot.Rounds.{Output, round_of, dot_seal-sums}
use he_transformer_research.Tests.Toy.{toy, ToyCt}
use he_transformer_research.Tests.Tensors.{line}
use he_transformer_research.Tests.World.{empty_store}

abbrev count_to : ℕ → ℕ → List (List ℕ)
count_to zero i = []
count_to (suc n) i = (i ∷ []) ∷ count_to n (i + 1)

-- A shape without dimensions has one coordinate.
abbrev coords_of : List ℕ → List (List ℕ)
coords_of [] = [] ∷ []
coords_of (n ∷ shape) = count_to n 0

abbrev vectors : Coordinates
vectors = record line { coords = coords_of }

abbrev factors : Mem ℕ ToyCt
factors = record empty_store {
  object =
      update
        (update
          (update (update empty_store.object 1 (of_plaintext (2 ∷ []) false)) 2
            (of_plaintext (3 ∷ []) false))
          3 (of_plaintext (4 ∷ []) false))
        4 (of_plaintext (5 ∷ []) false);
}

abbrev outputs : List (Output ℕ)
outputs = (0, 5, (0, 0, 1, 3, 2, 4), (1, 1, 2, 4, 3, 5) ∷ []) ∷ []

outputs-are_rounds :
    dot_rounds vectors toy (2 ∷ []) (2 ∷ []) [] 1
    ≡ map (round_of vectors toy 10 5 (omega arith) (1 ∷ 2 ∷ []) (3 ∷ 4 ∷ []) (5 ∷ [])) outputs
unfolding dot_rounds dot_pairs projected_rounds
outputs-are_rounds = refl

dot_seal-sums_example :
    (m' : Mem ℕ ToyCt) × (dot_seal vectors toy 10
        (1 ∷ 2 ∷ [])
        (3 ∷ 4 ∷ [])
        (5 ∷ [])
        (2 ∷ [])
        (2 ∷ [])
        []
        1
        ElementType.f32
        1
        factors
      ≡ ok (tt, m'))
    × ((m'.object 5 ≡ of_plaintext (23 ∷ []) false) × Unit {0})
    × ((j : ℕ) → j < 10 → (j ≢ 5) × Unit {0} → m'.object j ≡ factors.object j)
dot_seal-sums_example =
    dot_seal-sums vectors toy 10 5 (omega arith) (1 ∷ 2 ∷ []) (3 ∷ 4 ∷ []) (5 ∷ []) ElementType.f32
      (2 ∷ []) (2 ∷ []) [] 1 refl (omega arith) (omega arith) outputs outputs-are_rounds factors
      (
        (
          refl,
          omega arith,
          omega arith,
          (
            (refl, refl, omega arith, omega arith, refl, refl),
            ((refl, refl, omega arith, omega arith, refl, refl), tt),
          ),
        ),
        tt,
      )
      (tt, tt)
