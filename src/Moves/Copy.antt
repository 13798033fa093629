-- ===== src/Moves/Copy.antt =====
-- A copy whose output indices are 0, 1, … writes the chosen elements in order.
use he_transformer_research.Base.{
  true, false, ◌==◌, ◌||◌, ◌-◌, ◌⊎◌, inl, inr, elem, All, if◌then◌else◌, ℕ, zero, suc, ◌+◌, ◌≡◌,
  refl, sym, ap, ◌∙◌, some, List, [], ◌∷◌, ◌++◌, length, map, get_elem?, ltb, zip_with, ok, lt→ltb,
  ==_refl, length-append, set-middle, append_one, arith,
}
use he_transformer_research.Moves.{
  Coordinates, copy_loop, broadcast_seal, slice_seal, reverse_seal, is_member, reverse_coord,
}

-- `vs` are the elements of `arg` at the indices.
abbrev pub Picks : {A : Type 0} → List A → List ℕ → List A → Type 0
Picks arg [] [] = Unit
Picks arg [] (v ∷ vs) = ⊥
Picks arg (i ∷ is) [] = ⊥
Picks arg (i ∷ is) (v ∷ vs) = (get_elem? arg i ≡ some v) × Picks arg is vs

abbrev pub number : ℕ → List ℕ → List (ℕ × ℕ)
number k [] = []
number k (i ∷ is) = (k, i) ∷ number (k + 1) is

abbrev pub count_from : ℕ → ℕ → List ℕ
count_from zero k = []
count_from (suc n) k = k ∷ count_from n (k + 1)

module _ {A : Type 0} where
  pub copy_loop-number :
      (arg done rest vs : List A) (froms : List ℕ) (k : ℕ)
      → k ≡ length done
      → Picks arg froms vs
      → length rest ≡ length vs
      → copy_loop (number k froms) arg (done ++ rest) ≡ ok (done ++ vs)
  unfolding copy_loop
  copy_loop-number arg done [] [] [] k e p l = refl
  copy_loop-number arg done (x ∷ rest) [] froms k e p l = absurd (omega arith)
  copy_loop-number arg done [] (v ∷ vs) froms k e p l = absurd (omega arith)
  copy_loop-number arg done (x ∷ rest) (v ∷ vs) [] k e p l = absurd p
  copy_loop-number arg done [] [] (i ∷ is) k e p l = absurd p
  copy_loop-number arg done (x ∷ rest) (v ∷ vs) (i ∷ is) k e p l =
      let inside : ltb k (length (done ++ (x ∷ rest))) ≡ true =
        lt→ltb k _ (omega (arith, length-append done (x ∷ rest), e)) in
      let longer : k + 1 ≡ length (done ++ (v ∷ [])) =
        omega (arith, length-append done (v ∷ []), e) in
      rw (p.0, inside, set-middle done x v rest e, sym (append_one done v rest))
        (copy_loop-number arg (done ++ (v ∷ [])) rest vs is (k + 1) longer (p.1) (omega arith)
          ∙ ap ok (append_one done v vs))

number-map :
    {C : Type 0} (to from : C → ℕ) (cs : List C) (k : ℕ)
    → map to cs ≡ count_from (length cs) k
    → map (λ c. (to c, from c)) cs ≡ number k (map from cs)
number-map to from [] k e = refl
number-map to from (c ∷ cs) k e =
    let head : to c ≡ k = cc in
    let tail : map to cs ≡ count_from (length cs) (k + 1) = cc in
    rw (head, number-map to from cs (k + 1) tail)

zip-number :
    {C : Type 0} (to from : C → ℕ) (cs ds : List C) (k : ℕ)
    → length cs ≡ length ds
    → map to cs ≡ count_from (length cs) k
    → zip_with (λ c d. (to c, from d)) cs ds ≡ number k (map from ds)
zip-number to from [] [] k l e = refl
zip-number to from [] (d ∷ ds) k l e = absurd (omega arith)
zip-number to from (c ∷ cs) [] k l e = absurd (omega arith)
zip-number to from (c ∷ cs) (d ∷ ds) k l e =
    let head : to c ≡ k = cc in
    let tail : map to cs ≡ count_from (length cs) (k + 1) = cc in
    rw (head, zip-number to from cs ds (k + 1) (omega arith) tail)

-- nGraph visits the coordinates of a whole shape in the order of their indices.
abbrev pub IsRowMajor : Coordinates → List ℕ → Type 0
IsRowMajor N shape =
    map (N.index (N.of_shape shape)) (N.coords (N.of_shape shape))
    ≡ count_from (length (N.coords (N.of_shape shape))) 0

-- A coordinate and its mirror image in the axes, from dimension `i` on: in an axis of size `d`, the
-- image is as far from the end as the coordinate is from the start.
abbrev pub IsMirror : ℕ → List ℕ → List ℕ → List ℕ → List ℕ → Type 0
IsMirror i axes shape [] [] = Unit
IsMirror i axes (d ∷ ds) (c ∷ cs) (x ∷ xs) =
    (((elem i axes ≡ true) × (x + c + 1 ≡ d)) ⊎ ((elem i axes ≡ false) × (x ≡ c)))
    × IsMirror (i + 1) axes ds cs xs
IsMirror i axes shape cs xs = ⊥

is_member-elem : (i : ℕ) (axes : List ℕ) → is_member i axes ≡ elem i axes
unfolding is_member
is_member-elem i [] = refl
is_member-elem i (a ∷ axes) = ap (λ b. (i == a) || b) (is_member-elem i axes)

reverse_coord-IsMirror :
    (i : ℕ) (axes shape cs xs : List ℕ)
    → IsMirror i axes shape cs xs
    → reverse_coord i axes shape cs ≡ xs
unfolding reverse_coord
reverse_coord-IsMirror i axes shape [] [] h = refl
reverse_coord-IsMirror i axes [] (c ∷ cs) (x ∷ xs) h = absurd h
reverse_coord-IsMirror i axes shape [] (x ∷ xs) h = absurd h
reverse_coord-IsMirror i axes [] (c ∷ cs) [] h = absurd h
reverse_coord-IsMirror i axes (d ∷ ds) (c ∷ cs) [] h = absurd h
reverse_coord-IsMirror i axes (d ∷ ds) (c ∷ cs) (x ∷ xs) (inl (e, q), h) =
    let hit : is_member i axes ≡ true = is_member-elem i axes ∙ e in
    let first : (if is_member i axes then d - c - 1 else c) ≡ x = rw (hit) (omega (arith, q)) in
    rw (first, reverse_coord-IsMirror (i + 1) axes ds cs xs h) refl
reverse_coord-IsMirror i axes (d ∷ ds) (c ∷ cs) (x ∷ xs) (inr (e, q), h) =
    let hit : is_member i axes ≡ false = is_member-elem i axes ∙ e in
    let first : (if is_member i axes then d - c - 1 else c) ≡ x = rw (hit) (sym q) in
    rw (first, reverse_coord-IsMirror (i + 1) axes ds cs xs h) refl

map-mirrors :
    (axes shape : List ℕ) (mirror : List ℕ → List ℕ) (from : List ℕ → ℕ) (cs : List (List ℕ))
    → All (λ c. IsMirror 0 axes shape c (mirror c)) cs
    → map (λ c. from (reverse_coord 0 axes shape c)) cs ≡ map (λ c. from (mirror c)) cs
map-mirrors axes shape mirror from [] h = refl
map-mirrors axes shape mirror from (c ∷ cs) (h, hs) =
    rw
      (reverse_coord-IsMirror 0 axes shape c (mirror c) h, map-mirrors axes shape mirror from cs hs)
      refl

module _ (N : Coordinates) {A : Type 0} where
  open N use {of_shape, of_strides, coords, index, target_shape, reduce, shape_size}

  -- Where nGraph visits the output in the order of its indices and the output has as many elements as
  -- the result: `broadcast_seal` leaves at each place the argument's element at the coordinate
  -- without the broadcast axes, and `reverse_seal` the one at the mirror image of the coordinate, as far
  -- from the end in the reversed axes as the coordinate is from the start, and the same in the others.
  pub broadcast_reverse-in_order :
      (arg out broadcast reversed : List A) (in_shape out_shape axes : List ℕ)
      (mirror : List ℕ → List ℕ)
      → IsRowMajor N out_shape
      → length out ≡ length broadcast
      → length out ≡ length reversed
      → Picks arg
          (map (λ c. index (of_shape in_shape) (reduce c axes)) (coords (of_shape out_shape)))
          broadcast
      → All (λ c. IsMirror 0 axes in_shape c (mirror c)) (coords (of_shape out_shape))
      → Picks arg
          (map (λ c. index (of_shape in_shape) (mirror c)) (coords (of_shape out_shape)))
          reversed
      → (broadcast_seal N arg out in_shape out_shape axes ≡ ok broadcast)
        × (reverse_seal N arg out in_shape out_shape axes ≡ ok reversed)
  unfolding broadcast_seal reverse_seal
  broadcast_reverse-in_order arg out broadcast reversed in_shape out_shape axes mirror rows lb lr pb
        mirrored pr =
      let cs = coords (of_shape out_shape) in
      let to = index (of_shape out_shape) in
      let from = index (of_shape in_shape) in
      let same = map-mirrors axes in_shape mirror from cs mirrored in
      (
        rw (number-map to (λ c. from (reduce c axes)) cs 0 rows)
            (copy_loop-number arg [] out broadcast _ 0 refl pb lb),
        rw (number-map to (λ c. from (reverse_coord 0 axes in_shape c)) cs 0 rows, same)
            (copy_loop-number arg [] out reversed _ 0 refl pr lr),
      )

  -- Where nGraph visits the output in the order of its indices, and as many coordinates of the slice,
  -- of an equal size: `slice_seal` leaves in the output the elements that the slice visits, in order.
  pub slice_seal-in_order :
      (arg out sliced : List A) (in_shape out_shape lower upper strides : List ℕ)
      → IsRowMajor N out_shape
      → length out ≡ length sliced
      → length (coords (of_shape out_shape))
        ≡ length (coords (of_strides in_shape lower upper strides))
      → shape_size (target_shape (of_strides in_shape lower upper strides))
        ≡ shape_size (target_shape (of_shape out_shape))
      → Picks arg
          (map
            (index (of_strides in_shape lower upper strides))
            (coords (of_strides in_shape lower upper strides)))
          sliced
      → slice_seal N arg out in_shape lower upper strides out_shape ≡ ok sliced
  unfolding slice_seal
  slice_seal-in_order arg out sliced in_shape out_shape lower upper strides rows ls lc st ps =
      let input = of_strides in_shape lower upper strides in
      let cs = coords (of_shape out_shape) in
      let to = index (of_shape out_shape) in
      rw
        (
          st,
          ==_refl (shape_size (target_shape (of_shape out_shape))),
          zip-number to (index input) cs _ 0 lc rows,
        )
        (copy_loop-number arg [] out sliced _ 0 refl ps ls)
