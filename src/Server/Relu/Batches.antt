-- ===== src/Server/Relu/Batches.antt =====
-- The batches that a rectifier's requests are sent in.
use he_transformer_research.Base.{
  ℕ, ◌+◌, ◌<◌, ◌≤◌, ◌≡◌, ◌≢◌, refl, sym, true, false, List, [], ◌∷◌, ◌++◌, length, ◌==◌,
  if◌then◌else◌, All, Bool-cases, inl, inr, length-append, append_one, get_elem?-middle, ok, not,
  arith,
}
use he_transformer_research.Machine.{HeType, is_ciphertext}
use he_transformer_research.Server.Relu.{batch_loop, unknown_elements}
use he_transformer_research.Server.Relu.Pointwise.{concat, ciphertexts, ciphertext_indices}

==→≡ : (a b : ℕ) → (a == b) ≡ true → a ≡ b
==→≡ a b h = ground arith

==→≢ : (a b : ℕ) → (a == b) ≡ false → a ≢ b
==→≢ a b h = ground arith

module _ {D : Type 0} where
  batch_loop-concat :
      (max_count : ℕ) (hs batch : List (HeType D))
      → concat (batch_loop max_count batch hs) ≡ batch ++ hs
  unfolding batch_loop concat
  batch_loop-concat max_count [] [] = refl
  batch_loop-concat max_count [] (b ∷ bs) = refl
  batch_loop-concat max_count (h ∷ hs) batch =
      let full = batch ++ (h ∷ []) in
      elim (Bool-cases (length full == max_count)) [
        | inl p ↦ simp (p, if◌then◌else◌, batch_loop-concat max_count hs [], append_one batch h hs)
        | inr p ↦
            simp (p, if◌then◌else◌, batch_loop-concat max_count hs full, append_one batch h hs)
      ]

  abbrev pub IsBatch : ℕ → List (HeType D) → Type 0
  IsBatch max_count batch = (0 < length batch) × (length batch ≤ max_count)

  batch_loop-IsBatch :
      (max_count : ℕ) (hs batch : List (HeType D))
      → length batch < max_count
      → All (IsBatch max_count) (batch_loop max_count batch hs)
  unfolding batch_loop
  batch_loop-IsBatch max_count [] [] small = tt
  batch_loop-IsBatch max_count [] (b ∷ bs) small = ((omega arith, omega arith), tt)
  batch_loop-IsBatch max_count (h ∷ hs) batch small =
      let full = batch ++ (h ∷ []) in
      let grown : length full ≡ length batch + 1 = length-append batch (h ∷ []) in
      elim (Bool-cases (length full == max_count)) [
        | inl p ↦ rw (p) (
          (omega (arith, grown), omega (arith, grown)),
          batch_loop-IsBatch max_count hs [] (omega arith),
        )
        | inr p ↦
            let ne = ==→≢ (length full) max_count p in
            rw (p) (batch_loop-IsBatch max_count hs full (omega (arith, grown, ne)))
      ]

  -- Batches of at most `max_count` elements, none of them empty, hold all the elements in order.
  pub batch_loop-in_order :
      (max_count : ℕ) (hs : List (HeType D))
      → 0 < max_count
      → (concat (batch_loop max_count [] hs) ≡ hs)
        × All (IsBatch max_count) (batch_loop max_count [] hs)
  batch_loop-in_order max_count hs pos =
      (batch_loop-concat max_count hs [], batch_loop-IsBatch max_count hs [] pos)

  unknown_elements-from :
      (hs pre : List (HeType D)) (i : ℕ)
      → i ≡ length pre
      → unknown_elements (pre ++ hs) (ciphertext_indices i hs) ≡ ok (ciphertexts hs)
  unfolding unknown_elements ciphertext_indices ciphertexts is_ciphertext
  unknown_elements-from [] pre i e = refl
  unknown_elements-from (h ∷ hs) pre i e =
      let next : i + 1 ≡ length (pre ++ (h ∷ [])) = omega (arith, e, length-append pre (h ∷ [])) in
      let ih = unknown_elements-from hs (pre ++ (h ∷ [])) (i + 1) next in
      let moved : unknown_elements (pre ++ (h ∷ hs)) (ciphertext_indices (i + 1) hs)
          ≡ ok (ciphertexts hs) =
        rw (sym (append_one pre h hs)) ih in
      elim (Bool-cases h.is_plain) [
        | inl p ↦ simp (p, if◌then◌else◌, moved)
        | inr p ↦ simp (p, if◌then◌else◌, get_elem?-middle pre h hs e, is_ciphertext, not, moved)
      ]

  -- The elements at the indices that the server noted are the ciphertexts, all of them.
  pub unknown_elements-ciphertexts :
      (args : List (HeType D))
      → unknown_elements args (ciphertext_indices 0 args) ≡ ok (ciphertexts args)
  unknown_elements-ciphertexts args = unknown_elements-from args [] 0 refl
