-- ===== src/Aby/Parties/Slices.antt =====
-- Slices of lists, and what the loops of src/aby read from them and store into them.
use he_transformer_research.Base.{
  ℕ, zero, suc, ◌+◌, ◌-◌, ◌<◌, ◌≤◌, ◌≡◌, refl, sym, ap, ◌∙◌, some, List, [], ◌∷◌, ◌++◌, map, All,
  length, length-append, append_one, set-middle, get_elem?, replicate, take, drop, true, ltb,
  lt→ltb, arith, ok,
}
use he_transformer_research.Aby.Parties.{party_values, store_values}

module _ {A : Type 0} where
  abbrev pub slice : ℕ → ℕ → List A → List A
  slice k i xs = take k (drop i xs)

  pub drop-get :
      (i : ℕ) (xs : List A)
      → i < length xs
      → (x : A) × (get_elem? xs i ≡ some x) × (drop i xs ≡ x ∷ drop (suc i) xs)
  drop-get i [] h = absurd (omega arith)
  drop-get zero (x ∷ xs) h = (x, refl, refl)
  drop-get (suc i) (x ∷ xs) h = drop-get i xs (omega arith)

  pub take_nil : (k : ℕ) → take {A = A} k [] ≡ []
  take_nil zero = refl
  take_nil (suc k) = refl

  pub take-add : (i k : ℕ) (xs : List A) → take (i + k) xs ≡ take i xs ++ take k (drop i xs)
  take-add zero k xs = let e : 0 + k ≡ k = omega arith in ap (λ n. take n xs) e
  take-add (suc i) k [] = take_nil (suc i + k) ∙ sym (take_nil k)
  take-add (suc i) k (x ∷ xs) =
      let e : suc i + k ≡ suc (i + k) = omega arith in
      ap (λ n. take n (x ∷ xs)) e ∙ ap (λ l. x ∷ l) (take-add i k xs)

  pub drop-replicate : (k n : ℕ) (a : A) → drop k (replicate n a) ≡ replicate (n - k) a
  drop-replicate zero n a = let e : n ≡ n - 0 = omega arith in ap (λ m. replicate m a) e
  drop-replicate (suc k) zero a = let e : 0 ≡ 0 - suc k = omega arith in ap (λ m. replicate m a) e
  drop-replicate (suc k) (suc n) a =
      let e : n - k ≡ suc n - suc k = omega arith in
      drop-replicate k n a ∙ ap (λ m. replicate m a) e

  pub All-take : (P : A → Type 0) (k : ℕ) (xs : List A) → All P xs → All P (take k xs)
  All-take P zero xs all = tt
  All-take P (suc k) [] all = tt
  All-take P (suc k) (x ∷ xs) (p, all) = (p, All-take P k xs all)

  pub All-drop : (P : A → Type 0) (k : ℕ) (xs : List A) → All P xs → All P (drop k xs)
  All-drop P zero xs all = all
  All-drop P (suc k) [] all = tt
  All-drop P (suc k) (x ∷ xs) (p, all) = All-drop P k xs all

  pub take-map :
      {C : Type 0} (f : A → C) (k : ℕ) (xs : List A) → take k (map f xs) ≡ map f (take k xs)
  take-map f zero xs = refl
  take-map f (suc k) [] = refl
  take-map f (suc k) (x ∷ xs) = ap (λ l. f x ∷ l) (take-map f k xs)

  pub drop-map :
      {C : Type 0} (f : A → C) (k : ℕ) (xs : List A) → drop k (map f xs) ≡ map f (drop k xs)
  drop-map f zero xs = refl
  drop-map f (suc k) [] = refl
  drop-map f (suc k) (x ∷ xs) = drop-map f k xs

pub party_values-slice :
    (values : List ℕ) (k i : ℕ)
    → i + k ≤ length values
    → party_values values i k ≡ ok (slice k i values)
unfolding party_values
party_values-slice values zero i h = refl
party_values-slice values (suc k) i h =
    let (v, got, rest) = drop-get i values (omega arith) in
    let later = party_values-slice values k (i + 1) (omega arith) in
    let next : i + 1 ≡ suc i = omega arith in rw (got, rest, later, next) refl

pub store_values-middle :
    (vs done rest : List ℕ)
    → length vs ≤ length rest
    → store_values vs (length done) (done ++ rest) ≡ ok (done ++ (vs ++ drop (length vs) rest))
unfolding store_values
store_values-middle [] done rest h = refl
store_values-middle (v ∷ vs) done [] h = absurd (omega arith)
store_values-middle (v ∷ vs) done (y ∷ rest) h =
    let at = set-middle done y v rest refl in
    let next : length done + 1 ≡ length (done ++ (v ∷ [])) = sym (length-append done (v ∷ [])) in
    let inside : ltb (length done) (length (done ++ (y ∷ rest))) ≡ true =
      lt→ltb (length done) (length (done ++ (y ∷ rest)))
        (rw (length-append done (y ∷ rest)) (omega arith)) in
    let later = store_values-middle vs (done ++ (v ∷ [])) rest (omega arith) in
    rw (inside, at, ← append_one done v rest, next, later)
      (ap ok (append_one done v (vs ++ drop (length vs) rest)))
