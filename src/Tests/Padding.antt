-- ===== src/Tests/Padding.antt =====
-- The theorems on padding at concrete inputs.
use he_transformer_research.Base.{◌≡◌, none, ok, arith}
use he_transformer_research.Moves.{Diff, of_size}
use he_transformer_research.Pad.{to_size, reflect_loop, reflect_dim}
use he_transformer_research.Pad.Termination.{IsInside, reflect_dim-IsInside, reflect_loop-none}

reflect_dim-IsInside_example :
    (y : Diff) × (reflect_dim (of_size 6) 2 13 ≡ ok (to_size y)) × IsInside (of_size 6) 2 y
reflect_dim-IsInside_example = reflect_dim-IsInside (of_size 6) 2 13 (omega arith)

reflect_loop-none_example : reflect_loop 50 (of_size 2) 1 (of_size 4) ≡ none
reflect_loop-none_example = reflect_loop-none 50 (of_size 2) (of_size 4) (λ e. omega arith)
