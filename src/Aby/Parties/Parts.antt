-- ===== src/Aby/Parties/Parts.antt =====
-- The shares and masks as one list, and the circuits of src/aby on a part of it.
use he_transformer_research.Base.{
  ℕ, suc, ◌+◌, ◌*◌, ◌%◌, ◌^◌, ◌<◌, ◌≤◌, ◌≡◌, refl, ap, ◌∙◌, Option, some, List, [], ◌∷◌, map, All,
  length, length-map, get_elem?, replicate, take, drop, arith, ok,
}
use he_transformer_research.Aby.{BooleanCircuit, relu_aby}
use he_transformer_research.Aby.Evaluation.{Evaluation}
use he_transformer_research.Aby.Relu.{IsShared, masked_relu, relu_residue, relu_aby-masked}
use he_transformer_research.Aby.Parties.Slices.{slice, take-map, drop-map}

-- A share of the server, one of the client, and a mask.
abbrev pub Part : Type 0
Part = ℕ × ℕ × ℕ

module _ (q : ℕ) where
  abbrev pub IsPart : Part → Type 0
  IsPart p = (p.0 < q) × (p.1 ≤ q) × (p.2 < q)

  abbrev pub part_relu : Part → ℕ
  part_relu p = (relu_residue q ((p.0 + p.1) % q) + p.2) % q

  abbrev pub firsts : List Part → List ℕ
  firsts = map (λ p. p.0)

  abbrev pub seconds : List Part → List ℕ
  seconds = map (λ p. p.1)

  abbrev pub thirds : List Part → List ℕ
  thirds = map (λ p. p.2)

  pub IsShared-parts :
      (ps : List Part) → All IsPart ps → IsShared q (firsts ps) (seconds ps) (thirds ps)
  IsShared-parts [] all = tt
  IsShared-parts ((a, b, m) ∷ ps) ((la, lb, lm), all) = (la, lb, lm, IsShared-parts ps all)

  pub masked_relu-parts :
      (ps : List Part) → masked_relu q (firsts ps) (seconds ps) (thirds ps) ≡ map part_relu ps
  unfolding masked_relu
  masked_relu-parts [] = refl
  masked_relu-parts ((a, b, m) ∷ ps) = ap (λ l. part_relu (a, b, m) ∷ l) (masked_relu-parts ps)

  pub parts_of :
      (xs xc r : List ℕ)
      → IsShared q xs xc r
      → (ps : List Part) × All IsPart ps × (xs ≡ firsts ps) × (xc ≡ seconds ps) × (r ≡ thirds ps)
  parts_of [] [] [] shared = ([], tt, refl, refl, refl)
  parts_of (a ∷ xs) (b ∷ xc) (m ∷ r) (la, lb, lm, shared) =
      let (ps, all, e, e', e'') = parts_of xs xc r shared in
      (
        (a, b, m) ∷ ps,
        ((la, lb, lm), all),
        ap (λ l. a ∷ l) e,
        ap (λ l. b ∷ l) e',
        ap (λ l. m ∷ l) e'',
      )
  parts_of [] [] (m ∷ r) shared = absurd shared
  parts_of [] (b ∷ xc) r shared = absurd shared
  parts_of (a ∷ xs) [] r shared = absurd shared
  parts_of (a ∷ xs) (b ∷ xc) [] shared = absurd shared

  pub slice-map :
      (f : Part → ℕ) (k i : ℕ) (ps : List Part) → slice k i (map f ps) ≡ map f (slice k i ps)
  slice-map f k i ps = ap (take k) (drop-map f i ps) ∙ take-map f k (drop i ps)

module _ (circ : BooleanCircuit) (w : ℕ) (E : Evaluation circ w) (q : ℕ) (pos : 0 < q)
    (fits : 2 * q ≤ 2 ^ w) where
  open circ use {Share}
  open E use {values}

  pub part_circuits :
      (k : ℕ) (ps : List Part)
      → length ps ≡ k
      → All (IsPart q) ps
      → (s c : Share) × (relu_aby circ k (firsts q ps) (replicate k 0) (thirds q ps) w q ≡ ok s)
        × (relu_aby circ k (replicate k 0) (seconds q ps) (replicate k 0) w q ≡ ok c)
        × (values s c ≡ map (part_relu q) ps)
  part_circuits k ps e all =
      let (s, c, built, built', clear) =
        relu_aby-masked circ w E q (firsts q ps) (seconds q ps) (thirds q ps)
          (IsShared-parts q ps all) pos fits in
      let size : length (firsts q ps) ≡ k = length-map ps (λ p. p.0) ∙ e in
      (s, c, rw (← size) built, rw (← size) built', clear ∙ masked_relu-parts q ps)

  -- The clear values of a client's share and the server's share of the same party.
  abbrev pub Clear : (ℕ → Share → List ℕ) → ℕ → List (Option Share) → Type 0
  Clear clear_values party shares =
      (j : ℕ) (s c : Share)
      → get_elem? shares j ≡ some (some s)
      → clear_values (party + j) c ≡ values s c

  pub Clear-rest :
      (clear_values : ℕ → Share → List ℕ) (party : ℕ) (o : Option Share)
      (shares : List (Option Share))
      → Clear clear_values party (o ∷ shares)
      → Clear clear_values (party + 1) shares
  Clear-rest clear_values party o shares clear j s c at =
      let next : party + 1 + j ≡ party + suc j = omega arith in
      ap (λ i. clear_values i c) next ∙ clear (suc j) s c at
