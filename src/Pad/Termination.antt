-- ===== src/Pad/Termination.antt =====
-- The reflection of a coordinate ends inside the input, if the dimension is at least 2.
use he_transformer_research.Base.{
  ℕ, zero, suc, ◌+◌, ◌*◌, ◌<◌, ◌≤◌, ◌≡◌, refl, true, false, none, some, ltb, ltb→lt, ge→ltb, ◌≢◌,
  if◌then◌else◌, Bool-cases, inl, inr, ok, arith,
}
use he_transformer_research.Moves.{Diff, of_size}
use he_transformer_research.Pad.{add, sub, less, to_size, reflect_loop, reflect_fuel, reflect_dim}

ltb_false→ge : (a b : ℕ) → ltb a b ≡ false → b ≤ a
ltb_false→ge a b h = ground arith

-- The position lies in the input.
abbrev pub IsInside : Diff → ℕ → Diff → Type 0
IsInside below n x = (less x below ≡ false) × (less x (add below (of_size n)) ≡ true)

reflect_loop-IsInside :
    (fuel : ℕ) (below : Diff) (n : ℕ) (x : Diff)
    → 2 ≤ n
    → 2 * (x.plus + below.minus) < 2 * (below.plus + x.minus) + fuel
    → 2 * (below.plus + x.minus) + 1 < 2 * (x.plus + below.minus) + fuel
    → (y : Diff) × (reflect_loop fuel below n x ≡ some y) × IsInside below n y
unfolding reflect_loop
reflect_loop-IsInside zero below n x two h1 h2 = absurd (omega arith)
reflect_loop-IsInside (suc fuel) below n x two h1 h2 =
    let above = add below (of_size n) in
    let distance_above = sub (sub x below) (sub (of_size n) (of_size 1)) in
    elim (Bool-cases (less x below)) [
      | inl low ↦
          let lt = ltb→lt (x.plus + below.minus) (below.plus + x.minus) low in
          let (y, ends, inside) =
            reflect_loop-IsInside fuel below n (add below (sub below x)) two (omega arith)
              (omega arith) in
          (y, simp (low, if◌then◌else◌, ends), inside)
      | inr high ↦ elim (Bool-cases (less x above)) [
        | inl within ↦ (x, simp (high, within, if◌then◌else◌), (high, within))
        | inr over ↦
            let ge = ltb_false→ge (x.plus + (below.minus + 0)) (below.plus + n + x.minus) over in
            let (y, ends, inside) =
              reflect_loop-IsInside fuel below n (sub (sub above distance_above) (of_size 1)) two
                (omega arith) (omega arith) in
            (y, simp (high, over, if◌then◌else◌, ends), inside)
      ]
    ]

-- For a dimension of at least 2, whatever the padding is, the loop of a coordinate ends, and with
-- `reflect_fuel` rounds at the latest, at a position inside the input.
pub reflect_dim-IsInside :
    (below : Diff) (n c : ℕ)
    → 2 ≤ n
    → (y : Diff) × (reflect_dim below n c ≡ ok (to_size y)) × IsInside below n y
unfolding reflect_dim
reflect_dim-IsInside below n c two =
    let (y, ends, inside) =
      reflect_loop-IsInside (reflect_fuel below (of_size c)) below n (of_size c) two (omega arith)
        (omega arith) in
    (y, simp (reflect_dim, ends), inside)

-- A dimension of 1 keeps a coordinate outside, so that the loop never ends.
pub reflect_loop-none :
    (fuel : ℕ) (below x : Diff)
    → x.plus + below.minus ≢ below.plus + x.minus
    → reflect_loop fuel below 1 x ≡ none
unfolding reflect_loop
reflect_loop-none zero below x h = refl
reflect_loop-none (suc fuel) below x h =
    let above = add below (of_size 1) in
    let distance_above = sub (sub x below) (sub (of_size 1) (of_size 1)) in
    let from_below =
      reflect_loop-none fuel below (add below (sub below x)) (λ e. h (omega arith)) in
    let from_above =
      reflect_loop-none fuel below (sub (sub above distance_above) (of_size 1))
        (λ e. h (omega arith)) in
    elim (Bool-cases (less x below)) [
      | inl low ↦ simp (low, if◌then◌else◌, from_below)
      | inr high ↦
          let ge = ltb_false→ge (x.plus + below.minus) (below.plus + x.minus) high in
          let over : less x above ≡ false =
            ge→ltb (x.plus + (below.minus + 0)) (below.plus + 1 + x.minus) (omega arith) in
          simp (high, over, if◌then◌else◌, from_above)
    ]
