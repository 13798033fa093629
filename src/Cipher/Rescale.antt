-- ===== src/Cipher/Rescale.antt =====
-- `rescale_seal` of src/seal/kernel/rescale_seal.cpp, `mod_reduce_seal` of mod_reduce_seal.hpp, and
-- `seal_security_level` of src/seal/seal_util.cpp. A vector is the list of its elements' addresses;
-- the OpenMP loops are modelled in the order of the indices, and the log is left out.
pub mod Levels
use he_transformer_research.Base.{
  ℕ, ◌-◌, Bool, Option, none, some, List, [], ◌∷◌, ◌==◌, if◌then◌else◌, Result, ok, err,
  ngraph_error,
}
use he_transformer_research.Backend.{Backend}
use he_transformer_research.Machine.{M, lift, object_at, cell_at, put_cell, pointer, ◌>>=◌, ◌>>◌}
use he_transformer_research.Cipher.PlainOps.{mod_reduce_ct}

-- `seal::sec_level_type`
pub data SecurityLevel : Type 0 where
  no_level tc128 tc192 tc256 : SecurityLevel

unfoldable pub seal_security_level : ℕ → Result SecurityLevel
seal_security_level bits =
    if bits == 0
    then ok no_level
    else (if bits == 128
        then ok tc128
        else (if bits == 192
            then ok tc192
            else (if bits == 256 then ok tc256 else err ngraph_error)))

module _ (B : Backend) where
  open B use {Ct, chain_index, rescale_to_next}

  -- The chain index after the rescaling, by the first ciphertext; none if there is no ciphertext.
  unfoldable pub new_chain_index : List ℕ → M B (Option ℕ)
  new_chain_index [] = lift B (ok none)
  new_chain_index (a ∷ arg) = do
    h ← object_at B a
    let first = do p ← pointer B h; c ← cell_at B p; lift B (ok (some (chain_index c - 1)))
    if h.is_plain then new_chain_index arg else first

  -- What is done to the cell of each ciphertext, in order.
  unfoldable pub for_ciphertexts : (Ct → Result Ct) → List ℕ → M B (Unit {0})
  for_ciphertexts f [] = lift B (ok tt)
  for_ciphertexts f (a ∷ arg) = do
    h ← object_at B a
    let change = do p ← pointer B h; c ← cell_at B p; c' ← lift B (f c); put_cell B p c'
    if h.is_plain then lift B (ok tt) else change
    for_ciphertexts f arg

  unfoldable pub rescale_seal : List ℕ → M B (Unit {0})
  rescale_seal arg = do
    found ← new_chain_index arg
    let go = λ (i : ℕ). if i == 0 then lift B (ok tt) else for_ciphertexts rescale_to_next arg
    elim found [ none ↦ lift B (ok tt) | some i ↦ go i ]

  pub mod_reduce_seal : List ℕ → M B (Unit {0})
  mod_reduce_seal = for_ciphertexts (mod_reduce_ct B)
