-- ===== src/Aby/Parties/Whole.antt =====
-- That the parties of src/aby together compute what one circuit on all the values does.
use mathlib.Core.Path.{subst}
use he_transformer_research.Base.{
  ℕ, zero, suc, ◌+◌, ◌-◌, ◌*◌, ◌^◌, ◌<◌, ◌≤◌, ◌≡◌, refl, sym, ap, ◌∙◌, Option, none, some, List, [],
  ◌∷◌, ◌++◌, map, All, length, length-map, length-take, length-drop, length-replicate, take-length,
  append_nil, append_assoc, get_elem?, replicate, take, drop, tabulate, true, false, Bool-cases,
  inl, inr, ◌==◌, ==_refl, arith, ok,
}
use he_transformer_research.AbyUtil.{split_vector}
use he_transformer_research.AbyUtil.Balance.{boundary, split_vector-eq_boundaries}
use he_transformer_research.Aby.{BooleanCircuit, relu_aby}
use he_transformer_research.Aby.Evaluation.{Evaluation}
use he_transformer_research.Aby.Relu.{IsShared, masked_relu}
use he_transformer_research.Aby.Parties.{party_values, store_values, server_parties, client_parties}
use he_transformer_research.Aby.Parties.Slices.{
  slice, take-add, drop-replicate, All-take, All-drop, party_values-slice, store_values-middle,
}
use he_transformer_research.Aby.Parties.Parts.{
  Part, IsPart, part_relu, firsts, seconds, thirds, masked_relu-parts, parts_of, slice-map,
  part_circuits, Clear, Clear-rest,
}

-- Ranges that follow one another from `i` to `n`.
abbrev Follows : ℕ → List (ℕ × ℕ) → ℕ → Type 0
Follows i [] n = i ≡ n
Follows i (range ∷ ranges) n =
    (range.0 ≡ i) × (i ≤ range.1) × (range.1 ≤ n) × Follows (range.1) ranges n

module _ (circ : BooleanCircuit) (w : ℕ) (E : Evaluation circ w) (q : ℕ) (pos : 0 < q)
    (fits : 2 * q ≤ 2 ^ w) where
  open circ use {Share}
  open E use {values}

  abbrev Cleared : (ℕ → Share → List ℕ) → ℕ → List (Option Share) → Type 0
  Cleared = Clear circ w E q pos fits

  module _ (ps : List Part) (all : All (IsPart q) ps) where
    abbrev whole : List ℕ
    whole = map (part_relu q) ps

    -- The result when the values before `i` are there.
    abbrev progress : ℕ → List ℕ
    progress i = take i whole ++ replicate (length ps - i) 0

    progress-end : (i : ℕ) → i ≡ length ps → progress i ≡ whole
    progress-end i e =
        let left : length ps - i ≡ 0 = omega arith in
        let size : i ≡ length whole = e ∙ sym (length-map ps (part_relu q)) in
        rw left (append_nil (take i whole) ∙ rw size (take-length whole))

    store_values-progress :
        (i k : ℕ)
        → i + k ≤ length ps
        → store_values (slice k i whole) i (progress i) ≡ ok (progress (i + k))
    store_values-progress i k h =
        let size = length-map ps (part_relu q) in
        let done : length (take i whole) ≡ i = length-take i whole ∙ (rw size (omega arith)) in
        let part : length (slice k i whole) ≡ k =
          length-take k (drop i whole) ∙ (rw (length-drop i whole, size) (omega arith)) in
        let zeros : List ℕ = replicate (length ps - i) 0 in
        let room : length zeros ≡ length ps - i = length-replicate (length ps - i) 0 in
        let stored =
          store_values-middle (slice k i whole) (take i whole) zeros
            (rw (part, room) (omega arith)) in
        let left : length ps - i - k ≡ length ps - (i + k) = omega arith in
        ap (λ j. store_values (slice k i whole) j (progress i)) (sym done)
        ∙ stored
        ∙ ap ok (
            ap (λ m. take i whole ++ (slice k i whole ++ drop m zeros)) part
            ∙ ap (λ l. take i whole ++ (slice k i whole ++ l))
                (drop-replicate k (length ps - i) 0 ∙ ap (λ m. replicate m 0) left)
            ∙ sym
                (append_assoc (take i whole) (slice k i whole) (replicate (length ps - (i + k)) 0))
            ∙ ap (λ l. l ++ replicate (length ps - (i + k)) 0) (sym (take-add i k whole)))

    read-slice :
        (f : Part → ℕ) (i k : ℕ)
        → i + k ≤ length ps
        → party_values (map f ps) i k ≡ ok (map f (slice k i ps))
    read-slice f i k h =
        party_values-slice (map f ps) k i (rw (length-map ps f) h) ∙ ap ok (slice-map q f k i ps)

    party-runs :
        (i k : ℕ)
        → i + k ≤ length ps
        → (s c : Share) × (party_values (firsts q ps) i k ≡ ok (firsts q (slice k i ps)))
          × (party_values (seconds q ps) i k ≡ ok (seconds q (slice k i ps)))
          × (party_values (thirds q ps) i k ≡ ok (thirds q (slice k i ps)))
          × (relu_aby circ k (firsts q (slice k i ps)) (replicate k 0) (thirds q (slice k i ps)) w q
              ≡ ok s)
          × (relu_aby circ k (replicate k 0) (seconds q (slice k i ps)) (replicate k 0) w q ≡ ok c)
          × (values s c ≡ slice k i whole)
          × (length (values s c) ≡ k)
    party-runs i k h =
        let part : length (slice k i ps) ≡ k =
          length-take k (drop i ps) ∙ (rw (length-drop i ps) (omega arith)) in
        let (s, c, built, built', clear) =
          part_circuits circ w E q pos fits k (slice k i ps) part
            (All-take (IsPart q) k (drop i ps) (All-drop (IsPart q) i ps all)) in
        (
          s,
          c,
          read-slice (λ p. p.0) i k h,
          read-slice (λ p. p.1) i k h,
          read-slice (λ p. p.2) i k h,
          built,
          built',
          clear ∙ sym (slice-map q (part_relu q) k i ps),
          ap length clear ∙ length-map (slice k i ps) (part_relu q) ∙ part,
        )

    Outcome : ℕ → ℕ → List (ℕ × ℕ) → Type 0
    Outcome party i ranges =
        (shares : List (Option Share)) × (server_parties circ w q (firsts q ps) (thirds q ps) ranges
          ≡ ok shares)
        × ((clear_values : ℕ → Share → List ℕ)
            → Cleared clear_values party shares
            → client_parties circ w q clear_values (seconds q ps) party ranges (progress i)
              ≡ ok whole)

    empty-range :
        (party i : ℕ) (range : ℕ × ℕ) (ranges : List (ℕ × ℕ))
        → range.0 ≡ i
        → ((range.1 - range.0) == 0) ≡ true
        → range.1 ≡ i
        → Outcome (party + 1) (range.1) ranges
        → Outcome party i (range ∷ ranges)
    unfolding Outcome server_parties client_parties
    empty-range party i range ranges e none_left same (shares, built, runs) = (
      none ∷ shares,
      rw (none_left, built) refl,
      λ clear_values clear.
          rw (none_left, ← same)
            (runs clear_values
              (Clear-rest circ w E q pos fits clear_values party none shares clear)),
    )

    full-range :
        (party i : ℕ) (range : ℕ × ℕ) (ranges : List (ℕ × ℕ))
        → range.0 ≡ i
        → ((range.1 - range.0) == 0) ≡ false
        → i ≤ range.1
        → range.1 ≤ length ps
        → Outcome (party + 1) (range.1) ranges
        → Outcome party i (range ∷ ranges)
    unfolding Outcome server_parties client_parties
    full-range party i (a, b) ranges e some_left le inside (shares, built, runs) =
        let k : ℕ = b - a in
        let end : a + k ≡ b = omega arith in
        let (s, c, xs, xc, r, server_built, client_built, clear, size) =
          party-runs a k (omega arith) in
        (
          some s ∷ shares,
          rw (some_left, xs, r, server_built, built) refl,
          λ clear_values cleared.
              let first : party ≡ party + 0 = omega arith in
              let value : clear_values party c ≡ values s c =
                ap (λ j. clear_values j c) first ∙ cleared 0 s c refl in
              let stored : store_values (clear_values party c) a (progress i) ≡ ok (progress b) =
                ap (λ vs. store_values vs a (progress i)) (value ∙ clear)
                ∙ ap (λ j. store_values (slice k a whole) a (progress j)) (sym e)
                ∙ store_values-progress a k (omega arith)
                ∙ ap (λ j. ok (progress j)) end in
              let count : length (clear_values party c) ≡ k = ap length value ∙ size in
              rw (some_left, xc, client_built, count, ==_refl k, stored)
                (runs clear_values
                  (Clear-rest circ w E q pos fits clear_values party (some s) shares cleared)),
        )

    parties-from :
        (ranges : List (ℕ × ℕ)) (party i : ℕ)
        → Follows i ranges (length ps)
        → Outcome party i ranges
    unfolding Outcome server_parties client_parties
    parties-from [] party i e = ([], refl, λ clear_values clear. ap ok (progress-end i e))
    parties-from ((a, b) ∷ ranges) party i (e, le, inside, follows) =
        let rest = parties-from ranges (party + 1) b follows in
        elim (Bool-cases ((b - a) == 0)) [
          | inl none_left ↦ empty-range party i (a, b) ranges e none_left (ground arith) rest
          | inr some_left ↦ full-range party i (a, b) ranges e some_left le inside rest
        ]

Follows-boundaries :
    (size n left i : ℕ)
    → 0 < n
    → left + i ≡ n
    → (boundary size n i ≤ size)
      × Follows
          (boundary size n i)
          (tabulate left i (λ k. (boundary size n k, boundary size n (k + 1))))
          size
Follows-boundaries size n zero i pos e =
    let (ranges, first, last, low, high) = split_vector-eq_boundaries size n i pos in
    let index : i ≡ n = omega arith in
    let at : boundary size n i ≡ size = ap (boundary size n) index ∙ last in (omega arith, at)
Follows-boundaries size n (suc left) i pos e =
    let (ranges, first, last, low, high) = split_vector-eq_boundaries size n i pos in
    let (le, follows) = Follows-boundaries size n left (i + 1) pos (omega arith) in
    (omega arith, (refl, omega arith, le, follows))

split-Follows :
    (size n : ℕ)
    → 0 < n
    → (ranges : List (ℕ × ℕ)) × (split_vector size n ≡ ok ranges) × Follows 0 ranges size
split-Follows size n pos =
    let (split, first, last, low, high) = split_vector-eq_boundaries size n 0 pos in
    let (le, follows) = Follows-boundaries size n n 0 pos (omega arith) in
    let ranges = tabulate n 0 (λ k. (boundary size n k, boundary size n (k + 1))) in
    (ranges, split, subst (λ i. Follows i ranges size) first follows)

-- What the execution of a party's circuits gives the client, where the server built its own.
abbrev pub clear_of :
    (circ : BooleanCircuit) (w : ℕ)
    → Evaluation circ w
    → Option (Option circ.Share)
    → circ.Share
    → List ℕ
clear_of circ w E none c = []
clear_of circ w E (some none) c = []
clear_of circ w E (some (some s)) c = E.values s c

clear_of-Clear :
    (circ : BooleanCircuit) (w : ℕ) (E : Evaluation circ w) (q : ℕ) (pos : 0 < q)
    (fits : 2 * q ≤ 2 ^ w) (shares : List (Option circ.Share))
    → Clear circ w E q pos fits (λ party c. clear_of circ w E (get_elem? shares party) c) 0 shares
clear_of-Clear circ w E q pos fits shares j s c at =
    let first : 0 + j ≡ j = omega arith in
    ap (λ i. clear_of circ w E (get_elem? shares i) c) first ∙ ap (λ o. clear_of circ w E o c) at

-- The server and the client split the values among any number of parties but none. The circuits of the
-- server are built, and what the client gets from the execution of them with its own is the rectified
-- and masked values, all of them and in order.
pub parties-masked :
    (circ : BooleanCircuit) (w : ℕ) (E : Evaluation circ w) (q num_parties : ℕ) (xs xc r : List ℕ)
    → IsShared q xs xc r
    → 0 < q
    → 2 * q ≤ 2 ^ w
    → 0 < num_parties
    → (ranges : List (ℕ × ℕ)) × (shares : List (Option circ.Share)) × (split_vector
          (length xs)
          num_parties
        ≡ ok ranges)
      × (server_parties circ w q xs r ranges ≡ ok shares)
      × (client_parties circ w q
            (λ party c. clear_of circ w E (get_elem? shares party) c)
            xc
            0
            ranges
            (replicate (length xs) 0)
          ≡ ok (masked_relu q xs xc r))
unfolding Outcome
parties-masked circ w E q num_parties xs xc r shared pos fits some_party =
    let (ps, all, e, e', e'') = parts_of q xs xc r shared in
    let (ranges, split, follows) = split-Follows (length ps) num_parties some_party in
    let (shares, built, runs) = parties-from circ w E q pos fits ps all ranges 0 0 follows in
    let size : length (firsts q ps) ≡ length ps = length-map ps (λ p. p.0) in
    let same : length xs ≡ length ps = ap length e ∙ size in
    let start : length xs ≡ length ps - 0 = omega arith in
    let clear_values =
      λ (party : ℕ) (c : circ.Share). clear_of circ w E (get_elem? shares party) c in
    let masked : masked_relu q xs xc r ≡ map (part_relu q) ps =
      ap (λ l. masked_relu q l xc r) e
      ∙ ap (λ l. masked_relu q (firsts q ps) l r) e'
      ∙ ap (λ l. masked_relu q (firsts q ps) (seconds q ps) l) e''
      ∙ masked_relu-parts q ps in
    (
      ranges,
      shares,
      ap (λ m. split_vector m num_parties) same ∙ split,
      ap (λ l. server_parties circ w q l r ranges) e
          ∙ ap (λ l. server_parties circ w q (firsts q ps) l ranges) e''
          ∙ built,
      ap (λ l. client_parties circ w q clear_values l 0 ranges (replicate (length xs) 0)) e'
          ∙ ap (λ m. client_parties circ w q clear_values (seconds q ps) 0 ranges (replicate m 0))
              start
          ∙ runs clear_values (clear_of-Clear circ w E q pos fits shares)
          ∙ ap ok (sym masked),
    )
