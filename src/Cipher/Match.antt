-- ===== src/Cipher/Match.antt =====
-- Two ciphertexts are brought to one place of the modulus chain and to one scale:
-- `within_rescale_tolerance`, `match_scale`, `match_modulus_and_scale_inplace` and
-- `match_to_smallest_chain_index` of src/seal/seal_util.hpp and src/seal/seal_util.cpp. The
-- OpenMP loop over the elements is modelled in the order of the indices.
pub mod Level
pub mod Skip
use he_transformer_research.Base.{
  ℕ, ◌+◌, ◌-◌, ◌^◌, Bool, true, false, ◌&&◌, not, List, [], ◌∷◌, ltb, ◌==◌, if◌then◌else◌, ok, err,
  check_failed, require, deref, get_elem?,
}
use he_transformer_research.Backend.{Backend}
use he_transformer_research.Machine.{
  HeType, Mem, M, lift, object_at, cell_at, put_cell, new_cell, pointer, is_ciphertext, ◌>>=◌, ◌>>◌,
}

-- `std::numeric_limits<size_t>::max()`
abbrev pub size_max : ℕ
size_max = 2 ^ 64 - 1

module _ (B : Backend) where
  open B use {Ct, scale, with_scale, divide, less_equal, tolerance, chain_index, mod_switch_to}

  unfoldable pub within_rescale_tolerance : Ct → Ct → Bool
  within_rescale_tolerance c0 c1 =
      less_equal (divide (scale c0) (scale c1)) tolerance
      && less_equal (divide (scale c1) (scale c0)) tolerance

  pub match_scale : ℕ → ℕ → M B (Unit {0})
  unfolding within_rescale_tolerance
  match_scale p0 p1 = do
    c0 ← cell_at B p0
    c1 ← cell_at B p1
    lift B (require (within_rescale_tolerance c0 c1) check_failed)
    put_cell B p0 (with_scale (scale c1) c0)

  -- `mod_switch_to_inplace` on the ciphertext that is higher in the chain.
  pub switch_higher : ℕ → ℕ → Ct → Ct → M B (Unit {0})
  switch_higher p0 p1 c0 c1 =
      if ltb (chain_index c0) (chain_index c1)
      then (do c1' ← lift B (mod_switch_to c1 (chain_index c0)); put_cell B p1 c1')
      else (do c0' ← lift B (mod_switch_to c0 (chain_index c1)); put_cell B p0 c0')

  -- The arguments are cells.
  pub match_modulus_and_scale_inplace : ℕ → ℕ → M B (Unit {0})
  unfolding within_rescale_tolerance match_scale switch_higher
  match_modulus_and_scale_inplace p0 p1 = do
    c0 ← cell_at B p0
    c1 ← cell_at B p1
    let adjust = do
      lift B (require (within_rescale_tolerance c0 c1) check_failed)
      switch_higher p0 p1 c0 c1
      d0 ← cell_at B p0
      d1 ← cell_at B p1
      lift B (require (chain_index d0 == chain_index d1) check_failed)
      match_scale p0 p1
    if chain_index c0 == chain_index c1 then lift B (ok tt) else adjust

  -- The first loop: the index and the chain index of the lowest ciphertext so far. The vector is
  -- the list of the addresses of its elements.
  pub find_smallest : List ℕ → ℕ → ℕ × ℕ → M B (ℕ × ℕ)
  find_smallest [] idx best = lift B (ok best)
  find_smallest (a ∷ rest) idx best = do
    h ← object_at B a
    let lower = do
      p ← pointer B h
      c ← cell_at B p
      lift B (ok (if ltb (chain_index c) best.1 then (idx, chain_index c) else best))
    best' ← if is_ciphertext h then lower else lift B (ok best)
    find_smallest rest (idx + 1) best'

  -- The second loop, with the cell of the copy `smallest_cipher`. The guard compares the index with
  -- `smallest_chain_ind.second`, which is a chain index.
  pub match_rest : ℕ → ℕ → List ℕ → ℕ → M B (Unit {0})
  match_rest copy smallest [] idx = lift B (ok tt)
  match_rest copy smallest (a ∷ rest) idx = do
    h ← object_at B a
    let adjust = do
      p ← pointer B h
      match_modulus_and_scale_inplace copy p
      c ← cell_at B p
      lift B (require (chain_index c == smallest) check_failed)
    if is_ciphertext h && not (idx == smallest) then adjust else lift B (ok tt)
    match_rest copy smallest rest (idx + 1)

  -- The vector is the list of the addresses of its elements; `size_max` if all are plaintexts.
  pub match_to_smallest_chain_index : List ℕ → M B ℕ
  match_to_smallest_chain_index he_types = do
    smallest ← find_smallest he_types 0 (0, size_max)
    let copy_and_match = do
      a ← lift B (deref (get_elem? he_types smallest.0))
      h ← object_at B a
      p ← pointer B h
      c ← cell_at B p
      copy ← new_cell B c
      match_rest copy smallest.1 he_types 0
      lift B (ok smallest.1)
    if smallest.1 == size_max then lift B (ok size_max) else copy_and_match
