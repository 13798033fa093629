-- ===== src/Passes/Liveness.antt =====
-- `HELiveness` of src/pass/he_liveness.cpp: after which node a tensor is not needed any more. A tensor is
-- a number, and a set of tensors is the list of its elements in some order.
pub mod Exact
use he_transformer_research.Base.{
  ℕ, Bool, true, false, not, List, [], ◌∷◌, ◌++◌, ◌==◌, elem, if◌then◌else◌,
}

-- The tensors of the inputs and of the outputs of a node.
pub record LiveNode : Type 0 where
  pub inputs : List ℕ
  pub outputs : List ℕ

-- `liveness_free_list` and `liveness_new_list`
pub record Lists : Type 0 where
  pub free_list : List ℕ
  pub new_list : List ℕ

-- The tensors that are not persistent.
unfoldable pub declared : List ℕ → List ℕ → List ℕ
declared persistent [] = []
declared persistent (t ∷ tensors) =
    let rest = declared persistent tensors in if elem t persistent then rest else t ∷ rest

unfoldable pub without : ℕ → List ℕ → List ℕ
without t [] = []
without t (x ∷ xs) = let rest = without t xs in if t == x then rest else x ∷ rest

-- The loop over the tensors of a node: what is not live becomes live, and is freed unless it is an
-- output of the function. It ends with the live tensors and the freed ones.
unfoldable pub free_loop : List ℕ → List ℕ → List ℕ × List ℕ → List ℕ × List ℕ
free_loop output_tensors [] (live, freed) = (live, freed)
free_loop output_tensors (t ∷ tensors) (live, freed) =
    let freed' = if elem t output_tensors then freed else t ∷ freed in
    free_loop output_tensors tensors (if elem t live then (live, freed) else (t ∷ live, freed'))

-- The loop over the outputs: what is live is new, and is live no more.
unfoldable pub new_loop : List ℕ → List ℕ × List ℕ → List ℕ × List ℕ
unfolding without
new_loop [] (live, made) = (live, made)
new_loop (t ∷ tensors) (live, made) =
    new_loop tensors (if elem t live then (without t live, t ∷ made) else (live, made))

-- The lists of a node, and the tensors that are live before it, from those that are live after it. The
-- outputs of the function are the persistent tensors.
unfoldable pub live_step : List ℕ → LiveNode → List ℕ → Lists × List ℕ
unfolding declared free_loop new_loop
live_step persistent node live =
    let inputs = declared persistent node.inputs in
    let outputs = declared persistent node.outputs in
    let (live', freed) = free_loop persistent (inputs ++ outputs) (live, []) in
    let (live'', made) = new_loop outputs (live', []) in
    (record { free_list = freed; new_list = made }, live'')

-- The nodes from the last to the first.
unfoldable pub he_liveness : List ℕ → List LiveNode → List Lists × List ℕ
unfolding live_step
he_liveness persistent [] = ([], [])
he_liveness persistent (node ∷ nodes) =
    let (later, live) = he_liveness persistent nodes in
    let (lists, live') = live_step persistent node live in (lists ∷ later, live')
