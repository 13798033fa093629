-- ===== src/Tests/Elements.antt =====
-- The theorems on matching, sums, rescaling and the wire of elements at concrete stores.
use he_transformer_research.Base.{
  ◌⊎◌, Bool, if◌then◌else◌, leb, err, Error, seal_error, sym, ap, ℕ, ◌<◌, ◌≤◌, ◌≡◌, refl, true,
  false, some, [], ◌∷◌, ok, arith, zero, suc,
}
use he_transformer_research.Machine.{
  HeType, Mem, of_plaintext, of_ciphertext, is_ciphertext, update, ◌>>=◌,
}
use he_transformer_research.Machine.Wire.{save, load}
use he_transformer_research.Machine.Wire.RoundTrip.{save-load_roundtrip}
use he_transformer_research.Cipher.Match.{
  within_rescale_tolerance, match_modulus_and_scale_inplace, match_to_smallest_chain_index,
}
use he_transformer_research.Cipher.Match.Level.{
  ChainLaws, Matched, Throws, match_modulus_and_scale_inplace-Matched,
}
use he_transformer_research.Cipher.Match.Skip.{match_to_smallest_chain_index-skips}
use he_transformer_research.Cipher.Rescale.{rescale_seal}
use he_transformer_research.Cipher.Rescale.Levels.{rescale_seal-keeps}
use he_transformer_research.Scalar.Arith.{scalar_add_seal}
use he_transformer_research.Scalar.Arith.Alias.{scalar_add_seal-alias}
use he_transformer_research.Tests.Toy.{ToyCt, toy}

-- Objects 0 and 1 are ciphertexts at the levels 1 and 3, in the cells 0 and 1, and the others
-- plaintexts; cell 2 is the next.
abbrev cells : ℕ → ToyCt
cells zero = record { level = 1; ct_scale = 1; words = [] }
cells (suc n) = record { level = 3; ct_scale = 1; words = [] }

abbrev objects : ℕ → HeType ℕ
objects zero = of_ciphertext 0 false 1
objects (suc zero) = of_ciphertext 1 false 1
objects (suc (suc n)) = of_plaintext (5 ∷ []) false

abbrev store : Mem ℕ ToyCt
store = record { object = objects; cell = cells; next = 2 }

switched : (b : Bool) (c c' : ToyCt) → (if b then ok c else err seal_error) ≡ ok c' → c ≡ c'
switched true c c' h = cc
switched false c c' h = cc

switch_toy :
    (c : ToyCt) (i : ℕ) (c' : ToyCt)
    → i ≤ c.level
    → toy.mod_switch_to c i ≡ ok c'
    → (c'.level ≡ i) × (c'.ct_scale ≡ c.ct_scale)
switch_toy c i c' h run =
    let same = switched (leb i c.level) (record c { level = i }) c' run in
    (sym (ap (λ x. x.level) same), sym (ap (λ x. x.ct_scale) same))

toy-ChainLaws : ChainLaws toy
toy-ChainLaws = record {
  switch_down = switch_toy;
  scale-with_scale = λ s c. refl;
  chain_index-with_scale = λ s c. refl;
}

match_modulus_and_scale_inplace-Matched_example :
    ((m' : Mem ℕ ToyCt) × (match_modulus_and_scale_inplace toy 0 1 store ≡ ok (tt, m'))
      × Matched toy toy-ChainLaws 0 1 store m')
    ⊎ ((e : Error) × (match_modulus_and_scale_inplace toy 0 1 store ≡ err e)
        × Throws toy toy-ChainLaws 0 1 store e)
unfolding within_rescale_tolerance
match_modulus_and_scale_inplace-Matched_example =
    match_modulus_and_scale_inplace-Matched toy toy-ChainLaws 0 1 store (omega arith) refl

match_to_smallest_chain_index-skips_example :
    (m' : Mem ℕ ToyCt) × (match_to_smallest_chain_index toy (0 ∷ 1 ∷ []) store ≡ ok (1, m'))
    × (m'.object ≡ store.object)
    × (1 < (m'.cell 1).level)
unfolding of_ciphertext is_ciphertext
match_to_smallest_chain_index-skips_example =
    match_to_smallest_chain_index-skips toy 0 1 0 1 store (refl, refl, refl, refl) (omega arith)
      (omega arith) refl (omega arith)

rescale_seal-keeps_example :
    (rescale_seal toy (2 ∷ 3 ∷ []) store ≡ ok (tt, store))
    × (rescale_seal toy (2 ∷ 3 ∷ 0 ∷ 1 ∷ []) store ≡ ok (tt, store))
unfolding of_plaintext of_ciphertext
rescale_seal-keeps_example =
    rescale_seal-keeps toy store (2 ∷ 3 ∷ []) (1 ∷ []) 0 0 (refl, (refl, tt)) refl refl
      (omega arith)

scalar_add_seal-alias_example :
    (m' : Mem ℕ ToyCt) × (scalar_add_seal toy 0 2 2 store ≡ ok (tt, m'))
    × ((m'.object 2).is_plain ≡ false)
    × ((m'.object 2).cipher ≡ some 3)
    × (m'.cell 3 ≡ store.cell 0)
unfolding of_ciphertext
scalar_add_seal-alias_example =
    scalar_add_seal-alias toy 0 2 0 false (5 ∷ []) 1 store (omega arith) (omega arith) refl refl

save-load_roundtrip_example :
    ((save toy (of_plaintext (5 ∷ 6 ∷ []) true) >>= load toy) store
      ≡ ok (of_plaintext (5 ∷ 6 ∷ []) true, store))
    × ((save toy (of_ciphertext 1 true 4) >>= load toy) store
        ≡ ok (
          of_ciphertext 2 true 4,
          record store { cell = update (update store.cell 2 toy.empty) 2 (store.cell 1); next = 3 },
        ))
save-load_roundtrip_example =
    save-load_roundtrip toy store (5 ∷ 6 ∷ []) true 1 4 (store.cell 1) (refl, (refl, tt)) refl refl
