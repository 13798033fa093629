-- ===== src/Executor/Loop.antt =====
-- The loop over the ordered operations in `HESealExecutable::call` of src/seal/he_seal_executable.cpp, with
-- the map of tensors. A descriptor's tensor is a number; the map is the list of its entries in the
-- order of the iteration. The timers and the logging are left out.
pub mod Wanted
pub mod Found
pub mod Complete
use Prim.Native.String.{String}
use text.Mathlib.Text.{◌==◌ as str_eq}
use he_transformer_research.Base.{
  ℕ, Bool, true, false, ◌&&◌, Option, none, some, List, [], ◌∷◌, ◌==◌, if◌then◌else◌, Result, ok,
  err, out_of_range, check_failed, require, ◌>>=◌, ◌>>◌,
}
use he_transformer_research.Passes.Liveness.{LiveNode, Lists}

pub record ExecNode : Type 0 where
  pub tensors : LiveNode
  pub is_op : Bool
  pub is_parameter : Bool
  pub is_output : Bool

module _ {T : Type 0} where
  unfoldable pub find_tensor : ℕ → List (ℕ × T) → Option T
  find_tensor t [] = none
  find_tensor t (entry ∷ map) =
      let rest = find_tensor t map in if t == entry.0 then some (entry.1) else rest

  -- `tensor_map.insert({tensor, …})` leaves an entry that is there.
  unfoldable pub insert_tensor : ℕ → T → List (ℕ × T) → List (ℕ × T)
  unfolding find_tensor
  insert_tensor t x map = elim (find_tensor t map) [ none ↦ (t, x) ∷ map | some y ↦ map ]

  -- `tensor_map.at` for each input.
  unfoldable pub inputs_at : List ℕ → List (ℕ × T) → Result (List T)
  unfolding find_tensor
  inputs_at [] map = ok []
  inputs_at (t ∷ tensors) map = do
    x ← elim (find_tensor t map) [ none ↦ err out_of_range | some x ↦ ok x ]
    rest ← inputs_at tensors map
    ok (x ∷ rest)

  -- The first entry whose tensor has the name is erased, if there is one.
  unfoldable pub erase_named : (T → String) → String → List (ℕ × T) → List (ℕ × T)
  erase_named get_name name [] = []
  erase_named get_name name (entry ∷ map) =
      let rest = erase_named get_name name map in
      if str_eq (get_name (entry.1)) name then map else entry ∷ rest

-- `name_of` is the name of a descriptor's tensor, `create` makes the tensor of an output, and `calls`
-- is `generate_calls`, which writes to the store behind the outputs.
module _ {T S : Type 0} (get_name : T → String) (name_of : ℕ → String)
    (create : ℕ → S → Result (T × S)) (calls : ExecNode → List T → List T → S → Result S)
    (enable_client : Bool) where
  unfoldable pub free_tensors : List ℕ → List (ℕ × T) → List (ℕ × T)
  unfolding erase_named
  free_tensors [] map = map
  free_tensors (t ∷ tensors) map = free_tensors tensors (erase_named get_name (name_of t) map)

  -- An output from the map, or made and put there.
  unfoldable pub output_at : ℕ → List (ℕ × T) → S → Result (T × List (ℕ × T) × S)
  unfolding find_tensor insert_tensor
  output_at t map s = elim (find_tensor t map) [
    | some x ↦ ok (x, map, s)
    | none ↦ (do fresh ← create t s; ok (fresh.0, insert_tensor t (fresh.0) map, fresh.1))
  ]

  unfoldable pub outputs_at : List ℕ → List (ℕ × T) → S → Result (List T × List (ℕ × T) × S)
  unfolding output_at
  outputs_at [] map s = ok ([], map, s)
  outputs_at (t ∷ tensors) map s = do
    made ← output_at t map s
    rest ← outputs_at tensors (made.1) (made.2)
    ok (made.0 ∷ rest.0, rest.1, rest.2)

  -- One operation that is no parameter; `m_client_outputs` is last.
  unfoldable pub run_op :
      ExecNode → List ℕ → List (ℕ × T) → S → List T → Result (List (ℕ × T) × S × List T)
  unfolding inputs_at outputs_at free_tensors
  run_op n free_list map s client_outputs = do
    args ← inputs_at n.tensors.inputs map
    let client_outputs' = if enable_client && n.is_output then args else client_outputs
    outs ← outputs_at n.tensors.outputs map s
    s' ← calls n args (outs.0) (outs.2)
    ok (free_tensors free_list (outs.1), s', client_outputs')

  -- The operations, each with its lists of the liveness pass.
  unfoldable pub run_ops : List (ExecNode × Lists) → List (ℕ × T) → S → List T → Result (S × List T)
  unfolding run_op
  run_ops [] map s client_outputs = ok (s, client_outputs)
  run_ops (op ∷ ops) map s client_outputs = do
    require (op.0).is_op check_failed
    next ←
        if (op.0).is_parameter
        then ok (map, s, client_outputs)
        else run_op (op.0) (op.1).free_list map s client_outputs
    run_ops ops (next.0) (next.1) (next.2)
