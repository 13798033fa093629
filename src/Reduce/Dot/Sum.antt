-- ===== src/Reduce/Dot/Sum.antt =====
-- The walk of the dot product along the dotted axes, and of the convolution over its window, on
-- plaintexts of one value.
use he_transformer_research.Base.{
  ℕ, ◌+◌, ◌<◌, ◌≡◌, ◌≢◌, refl, ◌∙◌, true, false, some, List, [], ◌∷◌, map, get_elem?, All,
  All-weaken, ==_refl, ne→==, ok, arith,
}
use he_transformer_research.Backend.{Backend}
use he_transformer_research.Machine.{Mem, HeType, of_plaintext, update, assign_plaintext}
use he_transformer_research.Machine.{◌>>=◌ as ◌>>=M◌}
use he_transformer_research.Scalar.Plain.{broadcast, scalar_add_plain, scalar_multiply_plain}
use he_transformer_research.Scalar.Arith.{scalar_add_seal, add_both_plain, set_complex_packing}
use he_transformer_research.Scalar.Multiply.{scalar_multiply_seal, multiply_both_plain}
use he_transformer_research.Moves.{Coordinates}
use he_transformer_research.Reduce.Dot.{add_product, walk}

pub update-same : {A : Type 0} (f : ℕ → A) (k : ℕ) (v : A) → update f k v k ≡ v
update-same f k v = rw (==_refl k) refl

pub update-other : {A : Type 0} (f : ℕ → A) (k j : ℕ) (v : A) → j ≢ k → update f k v j ≡ f j
update-other f k j v ne = rw (ne→== j k ne) refl

module _ (B : Backend) where
  open B use {D, Ct, zero_d, add, mul}

  -- A plaintext of one value.
  abbrev pub one : D → HeType D
  one x = of_plaintext (x ∷ []) false

  -- The object at `out` is the plaintext, and the others are as they were.
  abbrev Leaves : ℕ → D → Mem D Ct → Mem D Ct → Type 0
  Leaves out x m m' = (m'.object out ≡ one x) × ((j : ℕ) → j ≢ out → m'.object j ≡ m.object j)

  multiply_both-one :
      (a b out : ℕ) (x y z : D) (m : Mem D Ct)
      → m.object a ≡ one x
      → m.object b ≡ one y
      → m.object out ≡ one z
      → multiply_both_plain B a b out m
        ≡ ok (tt, record m { object = update m.object out (one (mul y x)) })
  unfolding multiply_both_plain assign_plaintext scalar_multiply_plain broadcast of_plaintext
  multiply_both-one a b out x y z m ha hb ho = rw (ha, hb) (rw ho (rw (ha, hb) (rw ho refl)))

  multiply-one :
      (a b out : ℕ) (x y z : D) (m : Mem D Ct)
      → m.object a ≡ one x
      → m.object b ≡ one y
      → m.object out ≡ one z
      → a ≢ out
      → b ≢ out
      → (m' : Mem D Ct) × (scalar_multiply_seal B a b out m ≡ ok (tt, m'))
        × Leaves out (mul y x) m m'
  unfolding scalar_multiply_seal set_complex_packing of_plaintext
  multiply-one a b out x y z m ha hb ho na nb =
      let both = multiply_both-one a b out x y z m ha hb ho in
      let once = update m.object out (one (mul y x)) in
      let m' : Mem D Ct = record m { object = update once out (one (mul y x)) } in
      (
        m',
        rw (ha, hb) (rw (both, ◌>>=M◌) (rw (ne→== a out na, ==_refl out) (rw ha refl))),
        (
          update-same once out (one (mul y x)),
          λ j ne.
              update-other once out j (one (mul y x)) ne
              ∙ update-other m.object out j (one (mul y x)) ne,
        ),
      )

  add-one :
      (a out : ℕ) (x s : D) (m : Mem D Ct)
      → m.object a ≡ one x
      → m.object out ≡ one s
      → a ≢ out
      → (m' : Mem D Ct) × (scalar_add_seal B a out out m ≡ ok (tt, m')) × Leaves out (add s x) m m'
  unfolding scalar_add_seal add_both_plain set_complex_packing assign_plaintext scalar_add_plain
      broadcast of_plaintext
  add-one a out x s m ha ho na =
      let qa = ne→== a out na in
      let once = update m.object out (one s) in
      let m' : Mem D Ct = record m { object = update once out (one (add s x)) } in
      (
        m',
        simp (ha, ho, qa, ==_refl out, ◌>>=M◌),
        (
          update-same once out (one (add s x)),
          λ j ne.
              update-other once out j (one (add s x)) ne ∙ update-other m.object out j (one s) ne,
        ),
      )

-- A product: the indices of the factors, their addresses and their values.
abbrev pub Term : Type 0 → Type 0
Term D = ℕ × ℕ × ℕ × ℕ × D × D

module _ (N : Coordinates) (B : Backend) (temp : ℕ) (arg0 arg1 : List ℕ) where
  open B use {D, Ct, zero_d, add, mul}

  -- The factors are plaintexts of one value, and none of the elements that the kernel makes.
  abbrev pub IsThere : Mem D Ct → Term D → Type 0
  IsThere m e =
      (get_elem? arg0 (e.0) ≡ some (e.2))
      × (get_elem? arg1 (e.1) ≡ some (e.3))
      × (e.2 < temp)
      × (e.3 < temp)
      × (m.object (e.2) ≡ one B (e.4))
      × (m.object (e.3) ≡ one B (e.5))

  -- The sum of the products, from the left.
  abbrev pub products_sum : D → List (Term D) → D
  products_sum s [] = s
  products_sum s (e ∷ es) = products_sum (add s (mul (e.5) (e.4))) es

  abbrev pub Below : Mem D Ct → Mem D Ct → Type 0
  Below m m' = (j : ℕ) → j < temp → m'.object j ≡ m.object j

  pub IsThere-Below :
      (m m' : Mem D Ct)
      → Below m m'
      → (es : List (Term D)) → All (IsThere m) es
      → All (IsThere m') es
  IsThere-Below m m' below es there =
      All-weaken {P = IsThere m} {Q = IsThere m'}
        (λ e (at0, at1, l0, l1, h0, h1).
          (at0, at1, l0, l1, below (e.2) l0 ∙ h0, below (e.3) l1 ∙ h1))
        es there

  -- The store when the factors and an empty product are copied to their places.
  abbrev copied : Mem D Ct → D → D → Mem D Ct
  copied m x y = record m {
    object =
        update (update (update m.object temp (one B x)) (temp + 1) (one B y)) (temp + 2)
          (one B zero_d);
  }

  copied-other :
      (m : Mem D Ct) (x y : D) (j : ℕ)
      → j ≢ temp
      → j ≢ temp + 1
      → j ≢ temp + 2
      → (copied m x y).object j ≡ m.object j
  copied-other m x y j n0 n1 n2 =
      rw (ne→== j (temp + 2) n2, ne→== j (temp + 1) n1, ne→== j temp n0) refl

  multiplied :
      (m : Mem D Ct) (x y : D)
      → (m' : Mem D Ct) × (scalar_multiply_seal B temp (temp + 1) (temp + 2) (copied m x y)
          ≡ ok (tt, m'))
        × (m'.object (temp + 2) ≡ one B (mul y x))
        × Below m m'
        × (m'.object (temp + 3) ≡ m.object (temp + 3))
  multiplied m x y =
      let first : (copied m x y).object temp ≡ one B x =
        rw
          (
            ne→== temp (temp + 2) (λ e. omega arith),
            ne→== temp (temp + 1) (λ e. omega arith),
            ==_refl temp,
          )
          refl in
      let second : (copied m x y).object (temp + 1) ≡ one B y =
        rw (ne→== (temp + 1) (temp + 2) (λ e. omega arith), ==_refl (temp + 1)) refl in
      let third : (copied m x y).object (temp + 2) ≡ one B zero_d = rw (==_refl (temp + 2)) refl in
      let (m', runs, (product, others)) =
        multiply-one B temp (temp + 1) (temp + 2) x y zero_d (copied m x y) first second third
          (λ e. omega arith) (λ e. omega arith) in
      (
        m',
        runs,
        product,
        (λ j lt.
            others j (λ e. omega arith)
            ∙ copied-other m x y j (λ e. omega arith) (λ e. omega arith) (λ e. omega arith)),
        others (temp + 3) (λ e. omega arith)
            ∙ copied-other m x y (temp + 3) (λ e. omega arith) (λ e. omega arith)
                (λ e. omega arith),
      )

  -- One round of the walk, from a sum that is there.
  walk-step :
      (m : Mem D Ct) (s : D) (e : Term D) (pairs : List (ℕ × ℕ))
      → m.object (temp + 3) ≡ one B s
      → IsThere m e
      → (m' : Mem D Ct) × (walk N B temp arg0 arg1 1 false ((e.0, e.1) ∷ pairs) m
          ≡ walk N B temp arg0 arg1 1 false pairs m')
        × (m'.object (temp + 3) ≡ one B (add s (mul (e.5) (e.4))))
        × Below m m'
  unfolding walk add_product
  walk-step m s (i, j, a0, a1, x, y) pairs hs (at0, at1, l0, l1, h0, h1) =
      let (m1, runs, product, below, kept) = multiplied m x y in
      let (m2, adds, (sum, others)) =
        add-one B (temp + 2) (temp + 3) (mul y x) s m1 product (kept ∙ hs) (λ e. omega arith) in
      (
        m2,
        rw (at0, at1, h0)
            (rw (ne→== a1 temp (λ e. omega arith))
              (rw h1 (rw (runs, ◌>>=M◌) (rw (adds, ◌>>=M◌) refl)))),
        sum,
        λ k lt. others k (λ e. omega arith) ∙ below k lt,
      )

  walk-first :
      (m : Mem D Ct) (e : Term D) (pairs : List (ℕ × ℕ))
      → IsThere m e
      → (m' : Mem D Ct) × (walk N B temp arg0 arg1 1 true ((e.0, e.1) ∷ pairs) m
          ≡ walk N B temp arg0 arg1 1 false pairs m')
        × (m'.object (temp + 3) ≡ one B (mul (e.5) (e.4)))
        × Below m m'
  unfolding walk add_product
  walk-first m (i, j, a0, a1, x, y) pairs (at0, at1, l0, l1, h0, h1) =
      let (m1, runs, product, below, kept) = multiplied m x y in
      let m2 : Mem D Ct = record m1 { object = update m1.object (temp + 3) (one B (mul y x)) } in
      (
        m2,
        rw (at0, at1, h0)
            (rw (ne→== a1 temp (λ e. omega arith)) (rw h1 (rw (runs, ◌>>=M◌) (rw product refl)))),
        update-same m1.object (temp + 3) (one B (mul y x)),
        λ k lt.
            update-other m1.object (temp + 3) k (one B (mul y x)) (λ e. omega arith) ∙ below k lt,
      )

  walk-rest :
      (es : List (Term D)) (m : Mem D Ct) (s : D)
      → m.object (temp + 3) ≡ one B s
      → All (IsThere m) es
      → (m' : Mem D Ct) × (walk N B temp arg0 arg1 1 false (map (λ e. (e.0, e.1)) es) m
          ≡ ok (false, m'))
        × (m'.object (temp + 3) ≡ one B (products_sum s es))
        × Below m m'
  unfolding walk
  walk-rest [] m s hs there = (m, refl, hs, λ j lt. refl)
  walk-rest (e ∷ es) m s hs (h, there) =
      let (m1, runs, sum, below) = walk-step m s e (map (λ e. (e.0, e.1)) es) hs h in
      let (m2, rest, sum', below') =
        walk-rest es m1 (add s (mul (e.5) (e.4))) sum (IsThere-Below m m1 below es there) in
      (m2, runs ∙ rest, sum', λ j lt. below' j lt ∙ below j lt)

  -- Along factors that are plaintexts of one value, below the elements that the kernel makes for
  -- itself, the walk returns, the sum is that of the products from the left, and no element below
  -- changes. There is at least one product.
  pub walk-products_sum :
      (e : Term D) (es : List (Term D)) (m : Mem D Ct)
      → All (IsThere m) (e ∷ es)
      → (m' : Mem D Ct) × (walk N B temp arg0 arg1 1 true (map (λ e. (e.0, e.1)) (e ∷ es)) m
          ≡ ok (false, m'))
        × (m'.object (temp + 3) ≡ of_plaintext (products_sum (mul (e.5) (e.4)) es ∷ []) false)
        × ((j : ℕ) → j < temp → m'.object j ≡ m.object j)
  walk-products_sum e es m (h, there) =
      let (m1, runs, sum, below) = walk-first m e (map (λ e. (e.0, e.1)) es) h in
      let (m2, rest, sum', below') =
        walk-rest es m1 (mul (e.5) (e.4)) sum (IsThere-Below m m1 below es there) in
      (m2, runs ∙ rest, sum', λ j lt. below' j lt ∙ below j lt)
