-- ===== src/AbyUtil/Balance.antt =====
-- The ranges of `split_vector` follow one another, cover the vector, and differ by at most one.
use native.Mathlib.Nat.{mul-div-le, lt-mul-div-succ}
use he_transformer_research.Base.{
  ℕ, zero, suc, ◌+◌, ◌-◌, ◌*◌, ◌/◌, ◌≤◌, ◌<◌, ◌≡◌, refl, ◌∷◌, ltb, ◌==◌, min, arith, ok, ap,
  Bool-cases, inl, inr, if◌then◌else◌, ne→==, tabulate,
}
use he_transformer_research.AbyUtil.{split_loop, split_vector}

-- The end of the range before `i`: `i` times the quotient, and one for each earlier extra.
abbrev edge : ℕ → ℕ → ℕ → ℕ → ℕ
edge size n split_size i = i * split_size + min i (size - n * split_size)

unfoldable pub boundary : ℕ → ℕ → ℕ → ℕ
boundary size n i = edge size n (size / n) i

module _ (size n w : ℕ) (lo : n * w ≤ size) (hi : size < n * w + n) where
  start-eq_edge :
      (i previous : ℕ)
      → previous ≡ edge size n w i
      → (if ltb 0 i then previous else 0) ≡ edge size n w i
  start-eq_edge zero previous h = omega arith
  start-eq_edge (suc i) previous h = ground arith

  end-eq_edge :
      (i : ℕ)
      → i < n
      → (if i == n - 1
          then size
          else (if ltb i (size - n * w) then edge size n w i + w + 1 else edge size n w i + w))
        ≡ edge size n w (i + 1)
  end-eq_edge i h = elim (Bool-cases (i == n - 1)) [
    | inl last ↦ let e : i + 1 ≡ n = ground arith in rw (last, e) (omega arith)
    | inr inner ↦ rw inner (ground arith)
  ]

  split_loop-eq_edges :
      (left i previous : ℕ)
      → left + i ≡ n
      → previous ≡ edge size n w i
      → split_loop size n w left i previous
        ≡ tabulate left i (λ j. (edge size n w j, edge size n w (j + 1)))
  unfolding split_loop
  split_loop-eq_edges zero i previous e h = refl
  split_loop-eq_edges (suc left) i previous e h =
      rw (start-eq_edge i previous h, end-eq_edge i (omega arith))
        (ap (λ l. (edge size n w i, edge size n w (i + 1)) ∷ l)
          (split_loop-eq_edges left (i + 1) (edge size n w (i + 1)) (omega arith) refl))

-- For at least one split, range `i` runs from `boundary i` to `boundary (i + 1)`: the ranges follow
-- one another, the first begins at 0, the last ends at the size, and the lengths differ by at most
-- one.
pub split_vector-eq_boundaries :
    (size n i : ℕ)
    → 0 < n
    → (split_vector size n ≡ ok (tabulate n 0 (λ k. (boundary size n k, boundary size n (k + 1)))))
      × (boundary size n 0 ≡ 0)
      × (boundary size n n ≡ size)
      × (boundary size n i + size / n ≤ boundary size n (i + 1))
      × (boundary size n (i + 1) ≤ boundary size n i + size / n + 1)
unfolding split_vector boundary
split_vector-eq_boundaries size n i pos =
    let lo : n * (size / n) ≤ size = mul-div-le size n in
    let hi : size < n * (size / n) + n = omega (arith, lt-mul-div-succ size pos) in
    (
      rw (ne→== n 0 (omega arith))
          (ap ok (split_loop-eq_edges size n (size / n) lo hi n 0 0 (omega arith) (omega arith))),
      omega arith,
      omega arith,
      omega arith,
      omega arith,
    )
