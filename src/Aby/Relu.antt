-- ===== src/Aby/Relu.antt =====
-- What the circuit of src/aby/kernel/relu_aby.hpp computes.
use native.Mathlib.Nat.{mod-eq_of_lt, mod-eq-sub-mod, add-mod_right, mod-lt}
use he_transformer_research.Base.{
  ℕ, zero, suc, le→leb, All-weaken, ◌+◌, ◌-◌, ◌*◌, ◌/◌, ◌%◌, ◌^◌, ◌<◌, ◌≤◌, ◌≡◌, refl, sym, ap, ◌∙◌,
  List, [], ◌∷◌, All, length, length-replicate, replicate, zip_with, Bool-cases, inl, inr, ltb,
  ==_refl, if◌then◌else◌, arith, ok,
}
use he_transformer_research.Aby.{
  BooleanCircuit, check_argument_range, reduce_mod, relu_gates, relu_aby,
}
use he_transformer_research.Aby.Evaluation.{Evaluation, add_word, sub_word, gt_bit, select}

-- The residue of a rectified value, where the residues above the half stand for negative values.
abbrev pub relu_residue : ℕ → ℕ → ℕ
relu_residue q x = if ltb (q / 2) x then 0 else x

-- The values that the shares stand for, rectified and masked.
unfoldable pub masked_relu : ℕ → List ℕ → List ℕ → List ℕ → List ℕ
masked_relu q (a ∷ xs) (b ∷ xc) (m ∷ r) =
    (relu_residue q ((a + b) % q) + m) % q ∷ masked_relu q xs xc r
masked_relu q xs xc r = []

-- One conditional subtraction of the modulus.
abbrev reduce_once : ℕ → ℕ → ℕ → ℕ
reduce_once w q x = select (gt_bit q x) (x, sub_word w x q)

reduce_once-mod : (w q x : ℕ) → x < 2 * q → 2 * q ≤ 2 ^ w → reduce_once w q x ≡ x % q
reduce_once-mod w q x small fits = elim (Bool-cases (ltb x q)) [
  | inl e ↦ let lt : x < q = ground arith in rw e (sym (mod-eq_of_lt lt))
  | inr e ↦
      let ge : q ≤ x = ground arith in
      let shift : x + (2 ^ w - q) ≡ (x - q) + 2 ^ w = omega arith in
      let low : x - q < 2 ^ w = omega arith in
      let wrap : (x + (2 ^ w - q)) % 2 ^ w ≡ x - q =
        ap (λ y. y % 2 ^ w) shift ∙ add-mod_right (x - q) (2 ^ w) ∙ mod-eq_of_lt low in
      let rest : x % q ≡ x - q = mod-eq-sub-mod ge ∙ mod-eq_of_lt (omega arith) in
      rw e (wrap ∙ sym rest)
]

relu_word : ℕ → ℕ → ℕ → ℕ → ℕ → ℕ
relu_word w q a b m =
    let x = reduce_once w q (add_word w a b) in
    reduce_once w q (add_word w (select (gt_bit x (q / 2)) (0, x)) m)

select-relu_residue : (q x : ℕ) → select (gt_bit x (q / 2)) (0, x) ≡ relu_residue q x
select-relu_residue q x = elim (Bool-cases (ltb (q / 2) x)) [
  | inl e ↦ rw e refl
  | inr e ↦ rw e refl
]

relu_residue-lt : (q x : ℕ) → x < q → relu_residue q x < q
relu_residue-lt q x lt = elim (Bool-cases (ltb (q / 2) x)) [
  | inl e ↦ rw e (omega arith)
  | inr e ↦ rw e lt
]

add_word-reduced :
    (w q a b : ℕ) → a + b < 2 * q → 2 * q ≤ 2 ^ w → reduce_once w q (add_word w a b) ≡ (a + b) % q
add_word-reduced w q a b small fits =
    let fit : a + b < 2 ^ w = omega arith in
    ap (reduce_once w q) (mod-eq_of_lt fit) ∙ reduce_once-mod w q (a + b) small fits

relu_word-masked :
    (w q a b m : ℕ)
    → a < q
    → b ≤ q
    → m < q
    → 2 * q ≤ 2 ^ w
    → relu_word w q a b m ≡ (relu_residue q ((a + b) % q) + m) % q
unfolding relu_word
relu_word-masked w q a b m la lb lm fits =
    let x : ℕ = (a + b) % q in
    let lt : x < q = mod-lt (a + b) (omega arith) in
    let first = add_word-reduced w q a b (omega arith) fits in
    let lr = relu_residue-lt q x lt in
    ap (λ y. reduce_once w q (add_word w (select (gt_bit y (q / 2)) (0, y)) m)) first
    ∙ ap (λ y. reduce_once w q (add_word w y m)) (select-relu_residue q x)
    ∙ add_word-reduced w q (relu_residue q x) m (omega arith) fits

-- Shares of values modulo `q`, and masks, as many of each.
abbrev pub IsShared : ℕ → List ℕ → List ℕ → List ℕ → Type 0
IsShared q [] [] [] = Unit
IsShared q (a ∷ xs) (b ∷ xc) (m ∷ r) = (a < q) × (b ≤ q) × (m < q) × IsShared q xs xc r
IsShared q xs xc r = ⊥

-- The values of the gates of `reduce_mod` and of the circuit, from those of its inputs.
abbrev reduce_values : ℕ → List ℕ → List ℕ → List ℕ
reduce_values w xs moduli =
    zip_with select (zip_with gt_bit moduli xs)
      (zip_with (λ x y. (x, y)) xs (zip_with (sub_word w) xs moduli))

circuit_values : ℕ → List ℕ → List ℕ → List ℕ → List ℕ → List ℕ → List ℕ → List ℕ
circuit_values w xs xc r moduli zeros halves =
    let x = reduce_values w (zip_with (add_word w) xs xc) moduli in
    let positive = zip_with select (zip_with gt_bit x halves) (zip_with (λ x y. (x, y)) zeros x) in
    reduce_values w (zip_with (add_word w) positive r) moduli

circuit_values-masked :
    (w q : ℕ) (xs xc r : List ℕ)
    → IsShared q xs xc r
    → 2 * q ≤ 2 ^ w
    → circuit_values w xs xc r
        (replicate (length xs) q)
        (replicate (length xs) 0)
        (replicate (length xs) (q / 2))
      ≡ masked_relu q xs xc r
unfolding circuit_values masked_relu relu_word
circuit_values-masked w q [] [] [] shared fits = refl
circuit_values-masked w q (a ∷ xs) (b ∷ xc) (m ∷ r) (la, lb, lm, shared) fits =
    let rest = circuit_values-masked w q xs xc r shared fits in
    let word = relu_word-masked w q a b m la lb lm fits in rw (rest, word) refl
circuit_values-masked w q [] [] (m ∷ r) shared fits = absurd shared
circuit_values-masked w q [] (b ∷ xc) r shared fits = absurd shared
circuit_values-masked w q (a ∷ xs) [] r shared fits = absurd shared
circuit_values-masked w q (a ∷ xs) (b ∷ xc) [] shared fits = absurd shared

module _ (circ : BooleanCircuit) (w : ℕ) (E : Evaluation circ w) where
  open circ use {Share}
  open E use {values}

  reduce_mod-values :
      (x m x' m' : Share)
      → values (reduce_mod circ x m) (reduce_mod circ x' m')
        ≡ reduce_values w (values x x') (values m m')
  unfolding reduce_mod
  reduce_mod-values x m x' m' =
      E.mux x (circ.put_sub_gate x m) (circ.put_gt_gate m x) x' (circ.put_sub_gate x' m')
        (circ.put_gt_gate m' x')
      ∙ simp (E.gt m x m' x', E.sub x m x' m')

  relu_gates-values :
      (n q : ℕ) (xs xc r z z' z'' : List ℕ)
      → length xs ≡ n
      → length xc ≡ n
      → length r ≡ n
      → All (λ v. v < 2 ^ w) xs
      → All (λ v. v < 2 ^ w) xc
      → All (λ v. v < 2 ^ w) r
      → q < 2 ^ w
      → values (relu_gates circ n xs z r w q) (relu_gates circ n z' xc z'' w q)
        ≡ circuit_values w xs xc r (replicate n q) (replicate n 0) (replicate n (q / 2))
  unfolding relu_gates circuit_values
  relu_gates-values n q xs xc r z z' z'' h h' h'' f f' f'' fq =
      let shared = E.in_of_server n xs z' h f in
      let own = E.in_of_client n z xc h' f' in
      let mask = E.in_of_server n r z'' h'' f'' in
      let moduli = E.constants n q fq in
      let zeros = E.constants n 0 (omega arith) in
      let halves = E.constants n (q / 2) (omega arith) in
      simp (E.out, E.add, E.mux, E.gt, E.sub, shared, own, mask, moduli, zeros, halves)

lengths :
    (q : ℕ) (xs xc r : List ℕ)
    → IsShared q xs xc r
    → (length xc ≡ length xs) × (length r ≡ length xs)
lengths q [] [] [] shared = (refl, refl)
lengths q (a ∷ xs) (b ∷ xc) (m ∷ r) (la, lb, lm, shared) =
    let (e, e') = lengths q xs xc r shared in (ap suc e, ap suc e')
lengths q [] [] (m ∷ r) shared = absurd shared
lengths q [] (b ∷ xc) r shared = absurd shared
lengths q (a ∷ xs) [] r shared = absurd shared
lengths q (a ∷ xs) (b ∷ xc) [] shared = absurd shared

-- All the values of the three lists are in range.
in_range :
    (q : ℕ) (xs xc r : List ℕ)
    → IsShared q xs xc r
    → All (λ v. v ≤ q) xs × All (λ v. v ≤ q) xc × All (λ v. v ≤ q) r
in_range q [] [] [] shared = (tt, tt, tt)
in_range q (a ∷ xs) (b ∷ xc) (m ∷ r) (la, lb, lm, shared) =
    let (f, f', f'') = in_range q xs xc r shared in ((omega arith, f), (lb, f'), (omega arith, f''))
in_range q [] [] (m ∷ r) shared = absurd shared
in_range q [] (b ∷ xc) r shared = absurd shared
in_range q (a ∷ xs) [] r shared = absurd shared
in_range q (a ∷ xs) (b ∷ xc) [] shared = absurd shared

All-replicate : (q n : ℕ) → All (λ v. v ≤ q) (replicate n 0)
All-replicate q zero = tt
All-replicate q (suc n) = (omega arith, All-replicate q n)

check_argument_range-ok :
    (vs : List ℕ) (q : ℕ) → All (λ v. v ≤ q) vs → check_argument_range vs 0 q ≡ ok tt
unfolding check_argument_range
check_argument_range-ok [] q small = refl
check_argument_range-ok (v ∷ vs) q (le, small) =
    rw (le→leb 0 v (omega arith), le→leb v q le) (check_argument_range-ok vs q small)

module _ (circ : BooleanCircuit) (w : ℕ) (E : Evaluation circ w) where
  open E use {values}

  relu_aby-ok :
      (n q : ℕ) (xs xc r : List ℕ)
      → length xs ≡ n
      → length xc ≡ n
      → length r ≡ n
      → All (λ v. v ≤ q) xs
      → All (λ v. v ≤ q) xc
      → All (λ v. v ≤ q) r
      → relu_aby circ n xs xc r w q ≡ ok (relu_gates circ n xs xc r w q)
  unfolding relu_aby
  relu_aby-ok n q xs xc r h h' h'' f f' f'' =
      rw (h, h', h'', ==_refl n)
        (rw
          (
            check_argument_range-ok xs q f,
            check_argument_range-ok xc q f',
            check_argument_range-ok r q f'',
          )
          refl)

  -- Where the server puts in its shares and its masks and the client its shares, all the checks of the
  -- circuit succeed, and its values are those of the rectifier modulo `q` on the sums of the shares,
  -- with the masks added modulo `q`. Twice `q` fits in a word.
  pub relu_aby-masked :
      (q : ℕ) (xs xc r : List ℕ)
      → IsShared q xs xc r
      → 0 < q
      → 2 * q ≤ 2 ^ w
      → (s c : circ.Share) × (relu_aby circ (length xs) xs (replicate (length xs) 0) r w q ≡ ok s)
        × (relu_aby circ (length xs) (replicate (length xs) 0) xc (replicate (length xs) 0) w q
            ≡ ok c)
        × (values s c ≡ masked_relu q xs xc r)
  relu_aby-masked q xs xc r shared pos fits =
      let n = length xs in
      let z : List ℕ = replicate n 0 in
      let (h', h'') = lengths q xs xc r shared in
      let (f, f', f'') = in_range q xs xc r shared in
      let hz : length z ≡ n = length-replicate n 0 in
      let fz = All-replicate q n in
      let word = λ (vs : List ℕ) (g : All (λ v. v ≤ q) vs).
        All-weaken {P = λ v. v ≤ q} {Q = λ v. v < 2 ^ w} (λ v le. omega arith) vs g in
      (
        relu_gates circ n xs z r w q,
        relu_gates circ n z xc z w q,
        relu_aby-ok n q xs z r refl hz h'' f fz f'',
        relu_aby-ok n q z xc z hz h' hz fz f' fz,
        relu_gates-values circ w E n q xs xc r z z z refl h' h'' (word xs f) (word xc f')
              (word r f'') (omega arith)
            ∙ circuit_values-masked w q xs xc r shared fits,
      )
