-- ===== src/Aby/Parties.antt =====
-- The loops over the parties of src/aby/aby_server_executor.cpp and src/aby/aby_client_executor.cpp: each
-- party has a circuit of its own for a range of the values. A circuit that is built has been executed.
pub mod Slices
pub mod Parts
pub mod Whole
use he_transformer_research.Base.{
  ℕ, zero, suc, ◌+◌, ◌-◌, Option, none, some, List, [], ◌∷◌, length, get_elem?, set, replicate, ltb,
  ◌==◌, if◌then◌else◌, Result, ok, check_failed, undefined, require, deref, ◌>>=◌, ◌>>◌,
}
use he_transformer_research.Aby.{BooleanCircuit, relu_aby}

-- The values of so many indices from `start_idx` on.
unfoldable pub party_values : List ℕ → ℕ → ℕ → Result (List ℕ)
party_values values start_idx zero = ok []
party_values values start_idx (suc n) = do
  v ← deref (get_elem? values start_idx)
  rest ← party_values values (start_idx + 1) n
  ok (v ∷ rest)

-- `relu_result[start_idx + party_result_idx] = out_vals_relu[party_result_idx]`
unfoldable pub store_values : List ℕ → ℕ → List ℕ → Result (List ℕ)
store_values [] start_idx result = ok result
store_values (v ∷ values) start_idx result = do
  require (ltb start_idx (length result)) undefined
  store_values values (start_idx + 1) (set result start_idx v)

module _ (circ : BooleanCircuit) (bitlen coeff_modulus : ℕ) where
  open circ use {Share}

  -- The server's circuits, one for each range that is not empty, with the values of the masks.
  unfoldable pub server_parties : List ℕ → List ℕ → List (ℕ × ℕ) → Result (List (Option Share))
  unfolding party_values
  server_parties input_mask output_mask [] = ok []
  server_parties input_mask output_mask (range ∷ ranges) = do
    let party_data_size = range.1 - range.0
    let relu_circuit = do
      xs ← party_values input_mask (range.0) party_data_size
      r ← party_values output_mask (range.0) party_data_size
      s ← relu_aby circ party_data_size xs (replicate party_data_size 0) r bitlen coeff_modulus
      ok (some s)
    built ← if party_data_size == 0 then ok none else relu_circuit
    rest ← server_parties input_mask output_mask ranges
    ok (built ∷ rest)

  -- The client's circuits, and the result with their clear values, which `clear_values` gives for a
  -- party and its share.
  unfoldable pub client_parties :
      (ℕ → Share → List ℕ) → List ℕ → ℕ → List (ℕ × ℕ) → List ℕ → Result (List ℕ)
  unfolding party_values store_values
  client_parties clear_values gc_vals party_idx [] result = ok result
  client_parties clear_values gc_vals party_idx (range ∷ ranges) result = do
    let party_data_size = range.1 - range.0
    let zeros = replicate party_data_size 0
    let run = do
      xc ← party_values gc_vals (range.0) party_data_size
      relu_out ← relu_aby circ party_data_size zeros xc zeros bitlen coeff_modulus
      let out_vals = clear_values party_idx relu_out
      require (length out_vals == party_data_size) check_failed
      store_values out_vals (range.0) result
    result' ← if party_data_size == 0 then ok result else run
    client_parties clear_values gc_vals (party_idx + 1) ranges result'
