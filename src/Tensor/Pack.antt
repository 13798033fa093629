-- ===== src/Tensor/Pack.antt =====
-- `HETensor::pack` and `HETensor::unpack` of src/he_tensor.cpp.
pub mod Columns
pub mod RoundTrip
use he_transformer_research.Base.{
  ℕ, zero, suc, ◌+◌, ◌/◌, ◌%◌, Bool, true, false, not, Option, none, some, List, [], ◌∷◌, ◌++◌,
  length, get_elem?, set, ◌==◌, if◌then◌else◌, replicate, Result, ok, err, check_failed, undefined,
  ◌>>=◌, ◌>>◌, require, deref,
}
use he_transformer_research.Machine.{HeType, of_plaintext}
use he_transformer_research.Tensor.{Tensor, get_batch_size, any_encrypted_data, pack_shape}

module _ {D : Type 0} where
  -- The value goes to the end of the plaintext at the index, and the flag with it.
  abbrev push_value : ℕ → D → Bool → List (List D × Bool) → Result (List (List D × Bool))
  push_value i v flag cols = do
    col ← deref (get_elem? cols i)
    ok (set cols i (col.0 ++ (v ∷ []), flag))

  -- The first loop of `pack`, from an index on: the new plaintexts with the packing flags of
  -- `new_data`. An empty plaintext is skipped; `idx % 0` is undefined.
  pub pack_loop : ℕ → List (HeType D) → List (List D × Bool) → Result (List (List D × Bool))
  pack_loop idx [] cols = ok cols
  pack_loop idx (h ∷ hs) cols = do
    let push = λ (v : D). do
      require (not (length cols == 0)) undefined
      push_value (idx % length cols) v h.complex_packing cols
    next ← elim h.plain [ [] ↦ ok cols | v ∷ vs ↦ push v ]
    pack_loop (idx + 1) hs next

  -- The second loop, `set_plaintext` on each new element.
  abbrev pub of_columns : List (List D × Bool) → List (HeType D)
  of_columns [] = []
  of_columns (col ∷ cols) = of_plaintext (col.0) (col.1) ∷ of_columns cols

  pub pack : Tensor D → ℕ → Result (Tensor D)
  pack t pack_axis = do
    require (pack_axis == 0) check_failed
    let work = do
      require (not (any_encrypted_data t.m_data)) check_failed
      require (not (get_batch_size (record t { packed = true }) == 0)) undefined
      let n = length t.m_data / get_batch_size (record t { packed = true })
      cols ← pack_loop 0 t.m_data (replicate n ([], false))
      s ← pack_shape t.shape 0
      ok (record t { packed = true; packed_shape = s; m_data = of_columns cols })
    if t.packed then ok t else work

  -- One round of the outer loop of `unpack`: the value of each element at the index.
  pub unpack_row : ℕ → List (HeType D) → Result (List (HeType D))
  unpack_row batch_idx [] = ok []
  unpack_row batch_idx (h ∷ hs) = do
    v ← deref (get_elem? h.plain batch_idx)
    rest ← unpack_row batch_idx hs
    ok (of_plaintext (v ∷ []) false ∷ rest)

  pub unpack_loop : ℕ → ℕ → List (HeType D) → Result (List (HeType D))
  unpack_loop batch_idx zero hs = ok []
  unpack_loop batch_idx (suc n) hs = do
    row ← unpack_row batch_idx hs
    rest ← unpack_loop (batch_idx + 1) n hs
    ok (row ++ rest)

  pub unpack : Tensor D → Result (Tensor D)
  unpack t = do
    let work = do
      require (not (any_encrypted_data t.m_data)) check_failed
      new_data ← unpack_loop 0 (get_batch_size t) t.m_data
      ok (record t { packed = false; packed_shape = t.shape; m_data = new_data })
    if t.packed then work else ok t
