-- ===== src/Reduce/Dot/Rounds.antt =====
-- The dot product on plaintexts of one value, against the sums of the products of its rounds.
use he_transformer_research.Base.{
  ℕ, ◌+◌, ◌<◌, ◌≤◌, ◌≡◌, ◌≢◌, refl, ap, ◌∙◌, Bool, true, false, some, List, [], ◌∷◌, map, length,
  get_elem?, All, All-weaken, ge→ltb, deref, ok, arith,
}
use he_transformer_research.HeUtil.{ElementType}
use he_transformer_research.Backend.{Backend}
use he_transformer_research.Machine.{Mem, of_plaintext, update}
use he_transformer_research.Machine.{◌>>=◌ as ◌>>=M◌, ◌>>◌ as ◌>>M◌, run-bind, lift}
use he_transformer_research.Moves.{Coordinates}
use he_transformer_research.Reduce.Dot.{
  Round, round, walk, write_sum, dot_rounds, dot_loop, dot_seal,
}
use he_transformer_research.Reduce.Dot.Sum.{
  Term, one, update-same, update-other, IsThere, IsThere-Below, products_sum, walk-products_sum,
}

-- A round: the index and the address of its output, its first product and the others.
abbrev pub Output : Type 0 → Type 0
Output D = ℕ × ℕ × Term D × List (Term D)

module _ (N : Coordinates) (B : Backend) (temp low : ℕ) (low_le : low ≤ temp)
    (arg0 arg1 out : List ℕ) where
  open B use {D, Ct, mul}

  abbrev pub terms : Output D → List (Term D)
  terms r = r.2 ∷ r.3

  abbrev pub round_of : Output D → Round
  round_of r = round (r.0) (map (λ e. (e.0, e.1)) (terms r))

  abbrev pub sum_of : Output D → D
  sum_of r = products_sum N B temp arg0 arg1 (mul (r.2).5 (r.2).4) (r.3)

  -- The factors have addresses below `low`, and the output one from there to `temp`.
  abbrev pub IsRound : Mem D Ct → Output D → Type 0
  IsRound m r =
      (get_elem? out (r.0) ≡ some (r.1))
      × (low ≤ r.1)
      × (r.1 < temp)
      × All (IsThere N B low arg0 arg1 m) (terms r)

  abbrev pub IsDistinct : List (Output D) → Type 0
  IsDistinct [] = Unit
  IsDistinct (r ∷ rs) = All (λ r'. r.1 ≢ r'.1) rs × IsDistinct rs

  -- Nothing below `temp` changes but the outputs.
  abbrev Others : List (Output D) → Mem D Ct → Mem D Ct → Type 0
  Others rs m m' = (j : ℕ) → j < temp → All (λ r. j ≢ r.1) rs → m'.object j ≡ m.object j

  IsThere-low :
      (m m' : Mem D Ct) (es : List (Term D))
      → ((j : ℕ) → j < low → m'.object j ≡ m.object j)
      → All (IsThere N B low arg0 arg1 m) es
      → All (IsThere N B low arg0 arg1 m') es
  IsThere-low m m' es same there = IsThere-Below N B low arg0 arg1 m m' same es there

  IsThere-temp :
      (m m' : Mem D Ct) (es : List (Term D))
      → ((j : ℕ) → j < low → m'.object j ≡ m.object j)
      → All (IsThere N B low arg0 arg1 m) es
      → All (IsThere N B temp arg0 arg1 m') es
  IsThere-temp m m' es same there =
      All-weaken {P = IsThere N B low arg0 arg1 m} {Q = IsThere N B temp arg0 arg1 m'}
        (λ e (at0, at1, l0, l1, h0, h1).
          (at0, at1, omega arith, omega arith, same (e.2) l0 ∙ h0, same (e.3) l1 ∙ h1))
        es there

  one_round :
      (r : Output D) (rounds : List Round) (m : Mem D Ct)
      → IsRound m r
      → (m' : Mem D Ct) × (dot_loop N B temp arg0 arg1 out 1 (round_of r ∷ rounds) m
          ≡ dot_loop N B temp arg0 arg1 out 1 rounds m')
        × (m'.object (r.1) ≡ one B (sum_of r))
        × Others (r ∷ []) m m'
  unfolding dot_loop write_sum
  one_round (i, o, e, es) rounds m (at, above, below_temp, there) =
      let zero_sum = of_plaintext (B.zero_d ∷ []) false in
      let m1 : Mem D Ct = record m { object = update m.object (temp + 3) zero_sum } in
      let kept =
        λ (j : ℕ) (lt : j < temp). update-other m.object (temp + 3) j zero_sum (λ q. omega arith) in
      let (m2, runs, sum, below) =
        walk-products_sum N B temp arg0 arg1 e es m1
          (IsThere-temp m m1 (e ∷ es) (λ j lt. kept j (omega arith)) there) in
      let value = one B (products_sum N B temp arg0 arg1 (mul (e.5) (e.4)) es) in
      let m3 : Mem D Ct = record m2 { object = update m2.object o value } in
      let rest = λ (first_add : Bool). lift B (deref (get_elem? out i)) >>=M λ a.
      (write_sum N B temp a 1 first_add >>M dot_loop N B temp arg0 arg1 out 1 rounds) in
      (
        m3,
        run-bind (walk N B temp arg0 arg1 1 true (map (λ e. (e.0, e.1)) (e ∷ es))) rest m1 runs
            ∙ (rw at (rw sum refl)),
        update-same m2.object o value,
        λ j lt (ne, end). update-other m2.object o j value ne ∙ below j lt ∙ kept j lt,
      )

  dot_loop-sums :
      (rs : List (Output D)) (m : Mem D Ct)
      → All (IsRound m) rs
      → IsDistinct rs
      → (m' : Mem D Ct) × (dot_loop N B temp arg0 arg1 out 1 (map round_of rs) m ≡ ok (tt, m'))
        × All (λ r. m'.object (r.1) ≡ one B (sum_of r)) rs
        × Others rs m m'
  unfolding dot_loop
  dot_loop-sums [] m there distinct = (m, refl, tt, λ j lt ne. refl)
  dot_loop-sums (r ∷ rs) m (h, there) (apart, distinct) =
      let (m1, runs, value, others) = one_round r (map round_of rs) m h in
      let (at, above, below_temp, factors) = h in
      let same = λ (j : ℕ) (lt : j < low). others j (omega arith) ((λ q. omega arith), tt) in
      let still =
        All-weaken {P = IsRound m} {Q = IsRound m1}
          (λ r' (at', above', below', factors').
            (at', above', below', IsThere-low m m1 (terms r') same factors'))
          rs there in
      let (m2, rest, values, others') = dot_loop-sums rs m1 still distinct in
      (
        m2,
        runs ∙ rest,
        (others' (r.1) below_temp apart ∙ value, values),
        λ j lt (ne, nes). others' j lt nes ∙ others j lt (ne, tt),
      )

  -- For a supported type and no more dotted axes than the shapes have, with the rounds of the
  -- coordinates given with the addresses and the values of their factors, which are plaintexts of one
  -- value below `low`: the kernel returns, each output is the sum of the products of its round from the
  -- left, and nothing else below `temp` changes. The outputs lie between `low` and `temp`, no two at one
  -- address, and each round has a product.
  pub dot_seal-sums :
      (type : ElementType) (arg0_shape arg1_shape out_shape : List ℕ) (count : ℕ)
      → B.is_supported_type type ≡ true
      → count ≤ length arg1_shape
      → count ≤ length arg0_shape
      → (rs : List (Output D))
      → dot_rounds N B arg0_shape arg1_shape out_shape count ≡ map round_of rs
      → (m : Mem D Ct) → All (IsRound m) rs
      → IsDistinct rs
      → (m' : Mem D Ct) × (dot_seal N B temp arg0 arg1 out arg0_shape arg1_shape out_shape count
            type 1 m
          ≡ ok (tt, m'))
        × All (λ r. m'.object (r.1) ≡ of_plaintext (sum_of r ∷ []) false) rs
        × ((j : ℕ) → j < temp → All (λ r. j ≢ r.1) rs → m'.object j ≡ m.object j)
  unfolding dot_seal
  dot_seal-sums type arg0_shape arg1_shape out_shape count supported le1 le0 rs rounds m there
        distinct =
      let (m', runs, values, others) = dot_loop-sums rs m there distinct in
      (
        m',
        rw (supported, ge→ltb (length arg1_shape) count le1, ge→ltb (length arg0_shape) count le0)
            (ap (λ l. dot_loop N B temp arg0 arg1 out 1 l m) rounds ∙ runs),
        values,
        others,
      )
