-- ===== src/Cipher/Rescale/Levels.antt =====
-- What rescaling does to the levels of a vector.
use he_transformer_research.Base.{
  ℕ, ◌-◌, ◌≤◌, ◌≡◌, refl, true, false, none, some, List, [], ◌∷◌, ◌++◌, All, ok, if◌then◌else◌,
  arith,
}
use he_transformer_research.Backend.{Backend}
use he_transformer_research.Machine.{Mem, pointer, ◌>>=◌}
use he_transformer_research.Cipher.Rescale.{new_chain_index, rescale_seal}

module _ (B : Backend) where
  open B use {D, Ct, chain_index, rescale_to_next}

  -- Plaintext elements ahead of `a`.
  abbrev pub AllPlain : Mem D Ct → List ℕ → Type 0
  AllPlain m arg = All (λ b. (m.object b).is_plain ≡ true) arg

  new_chain_index-plain :
      (m : Mem D Ct) (arg : List ℕ) → AllPlain m arg → new_chain_index B arg m ≡ ok (none, m)
  unfolding new_chain_index
  new_chain_index-plain m [] h = refl
  new_chain_index-plain m (a ∷ arg) h = simp (h.0, ◌>>=◌, new_chain_index-plain m arg (h.1))

  new_chain_index-first :
      (m : Mem D Ct) (plains rest : List ℕ) (a p : ℕ)
      → AllPlain m plains
      → (m.object a).is_plain ≡ false
      → (m.object a).cipher ≡ some p
      → new_chain_index B (plains ++ (a ∷ rest)) m ≡ ok (some (chain_index (m.cell p) - 1), m)
  unfolding new_chain_index
  new_chain_index-first m [] rest a p h c d = simp (c, if◌then◌else◌, ◌>>=◌, pointer, d)
  new_chain_index-first m (b ∷ plains) rest a p h c d =
      simp (h.0, ◌>>=◌, new_chain_index-first m plains rest a p (h.1) c d)

  -- A vector of plaintexts is left as it is, and so is one whose first ciphertext is at chain index 0
  -- or 1, whatever follows it: no ciphertext of it is taken to chain index 0.
  pub rescale_seal-keeps :
      (m : Mem D Ct) (plains rest : List ℕ) (a p : ℕ)
      → AllPlain m plains
      → (m.object a).is_plain ≡ false
      → (m.object a).cipher ≡ some p
      → chain_index (m.cell p) ≤ 1
      → (rescale_seal B plains m ≡ ok (tt, m))
        × (rescale_seal B (plains ++ (a ∷ rest)) m ≡ ok (tt, m))
  unfolding rescale_seal
  rescale_seal-keeps m plains rest a p h c d low =
      let bottom : chain_index (m.cell p) - 1 ≡ 0 = omega arith in
      (
        simp (new_chain_index-plain m plains h, ◌>>=◌),
        simp (new_chain_index-first m plains rest a p h c d, bottom, ◌>>=◌),
      )
