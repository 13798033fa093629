-- ===== src/Pad.antt =====
-- `pad_seal` of src/seal/kernel/pad_seal.cpp. An element is copied as a value of any type. A
-- coordinate and the paddings are compared as `ptrdiff_t`.
pub mod Termination
use he_transformer_research.Base.{
  ℕ, zero, suc, ◌+◌, ◌-◌, ◌*◌, ◌^◌, Bool, true, false, Option, none, some, List, [], ◌∷◌, length,
  get_elem?, set, replicate, ltb, leb, ◌==◌, if◌then◌else◌, zip_with, Result, ok, err, check_failed,
  ngraph_error, undefined, ◌>>=◌, ◌>>◌, require, deref,
}
use he_transformer_research.Moves.{Coordinates, Diff, of_size}

abbrev pub add : Diff → Diff → Diff
add a b = record { plus = a.plus + b.plus; minus = a.minus + b.minus }

abbrev pub sub : Diff → Diff → Diff
sub a b = record { plus = a.plus + b.minus; minus = a.minus + b.plus }

abbrev pub less : Diff → Diff → Bool
less a b = ltb (a.plus + b.minus) (b.plus + a.minus)

-- The conversion to `size_t`, which wraps.
abbrev pub to_size : Diff → ℕ
to_size a = if leb a.minus a.plus then a.plus - a.minus else 2 ^ 64 - (a.minus - a.plus)

pub data PadMode : Type 0 where
  constant edge reflect symmetric : PadMode

-- The `while` loop of a dimension of size `n`, for so many rounds.
unfoldable pub reflect_loop : ℕ → Diff → ℕ → Diff → Option Diff
reflect_loop zero below n new_dim = none
reflect_loop (suc fuel) below n new_dim =
    let above = add below (of_size n) in
    let distance_above = sub (sub new_dim below) (sub (of_size n) (of_size 1)) in
    let from_below = reflect_loop fuel below n (add below (sub below new_dim)) in
    let from_above = reflect_loop fuel below n (sub (sub above distance_above) (of_size 1)) in
    if less new_dim below
    then from_below
    else (if less new_dim above then some new_dim else from_above)

-- Twice the distance to the lower end, and one more round.
abbrev pub reflect_fuel : Diff → Diff → ℕ
reflect_fuel below new_dim =
    let high = new_dim.plus + below.minus in
    let low = below.plus + new_dim.minus in 2 * (high - low) + 2 * (low - high) + 2

-- A loop that does not end is undefined.
unfoldable pub reflect_dim : Diff → ℕ → ℕ → Result ℕ
reflect_dim below n c = elim (reflect_loop (reflect_fuel below (of_size c)) below n (of_size c)) [
  | none ↦ err undefined
  | some new_dim ↦ ok (to_size new_dim)
]

-- Truncated below first, then above.
unfoldable pub edge_dim : Diff → ℕ → ℕ → Result ℕ
edge_dim below n c =
    let above = add below (of_size n) in
    let raised = if less (of_size c) below then to_size below else c in
    ok (if less (of_size raised) above then raised else to_size (sub above (of_size 1)))

-- Each dimension of a coordinate; a padding or a shape that ends early is read out of bounds.
pub map_dims : (Diff → ℕ → ℕ → Result ℕ) → List Diff → List ℕ → List ℕ → Result (List ℕ)
map_dims f below shape [] = ok []
map_dims f (b ∷ bs) (n ∷ ns) (c ∷ cs) = do d ← f b n c; ds ← map_dims f bs ns cs; ok (d ∷ ds)
map_dims f below shape (c ∷ cs) = err undefined

count_up : ℕ → ℕ → List ℕ
count_up zero i = []
count_up (suc n) i = i ∷ count_up n (i + 1)

module _ {ℓ} (N : Coordinates) {A : Type ℓ} where
  open N use {Transform, of_shape, of_padded, coords, index, has_source, target_shape, shape_size}

  pub pad_element : PadMode → Transform → List Diff → List ℕ → List A → A → List ℕ → Result A
  unfolding map_dims
  pad_element constant t below shape arg pad_val c =
      if has_source t c then deref (get_elem? arg (index t c)) else ok pad_val
  pad_element edge t below shape arg pad_val c = do
    c' ← map_dims edge_dim below shape c
    deref (get_elem? arg (index t c'))
  pad_element reflect t below shape arg pad_val c = do
    c' ← map_dims reflect_dim below shape c
    deref (get_elem? arg (index t c'))
  pad_element symmetric t below shape arg pad_val c = err ngraph_error

  -- The coordinates of the output and of the padded input advance together.
  pub pad_loop :
      PadMode
      → Transform
      → List Diff
      → List ℕ
      → List A
      → A
      → List (ℕ × List ℕ)
      → List A
      → Result (List A)
  unfolding pad_element
  pad_loop mode t below shape arg pad_val [] out = ok out
  pad_loop mode t below shape arg pad_val (step ∷ steps) out = do
    v ← pad_element mode t below shape arg pad_val (step.1)
    require (ltb (step.0) (length out)) undefined
    pad_loop mode t below shape arg pad_val steps (set out (step.0) v)

  only : List A → Result A
  only (v ∷ []) = ok v
  only _ = err check_failed

  unfoldable pub pad_seal :
      List A → List A → List A → List ℕ → List ℕ → List Diff → List Diff → PadMode → Result (List A)
  unfolding only count_up pad_loop
  pad_seal arg0 arg1 out arg0_shape out_shape padding_below padding_above mode = do
    pad_val ← only arg1
    let n = length arg0_shape
    let input =
        of_padded arg0_shape (replicate n 0) out_shape (replicate n 1) (count_up n 0) padding_below
          padding_above
    let output = of_shape out_shape
    require (shape_size (target_shape input) == shape_size (target_shape output)) check_failed
    pad_loop mode input padding_below arg0_shape arg0 pad_val
        (zip_with (λ o i. (index output o, i)) (coords output) (coords input)) out
