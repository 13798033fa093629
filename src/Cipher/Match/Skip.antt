-- ===== src/Cipher/Match/Skip.antt =====
-- `match_to_smallest_chain_index` leaves the element whose index is the smallest level.
use he_transformer_research.Base.{
  ℕ, ◌+◌, ◌<◌, ◌≡◌, ◌≢◌, refl, sym, ◌∙◌, ap, true, some, none, err, undefined, [], ◌∷◌, arith, ok,
  ==_refl, ne→==, ge→ltb,
}
use he_transformer_research.Backend.{Backend}
use he_transformer_research.Machine.{Mem, update, is_ciphertext, pointer, lift, ◌>>=◌, run-bind}
use he_transformer_research.Cipher.Match.{
  size_max, match_to_smallest_chain_index, find_smallest, match_rest,
  match_modulus_and_scale_inplace,
}

module _ (B : Backend) where
  open B use {Ct, D, chain_index}

  pointer_of :
      (m : Mem D Ct) (a p : ℕ) → (m.object a).cipher ≡ some p → pointer B (m.object a) m ≡ ok (p, m)
  pointer_of m a p e = ap (λ o. elim o [ none ↦ err undefined | some p ↦ ok (p, m) ]) e

  run_equal :
      (q p : ℕ) (m : Mem D Ct)
      → chain_index (m.cell q) ≡ chain_index (m.cell p)
      → match_modulus_and_scale_inplace B q p m ≡ ok (tt, m)
  unfolding match_modulus_and_scale_inplace
  run_equal q p m same = rw (same, ==_refl (chain_index (m.cell p)))

  -- The vector's two elements are ciphertexts, in the cells `p0` and `p1`.
  abbrev pub TwoCiphers : ℕ → ℕ → ℕ → ℕ → Mem D Ct → Type 0
  TwoCiphers a0 a1 p0 p1 m =
      (is_ciphertext (m.object a0) ≡ true)
      × (is_ciphertext (m.object a1) ≡ true)
      × ((m.object a0).cipher ≡ some p0)
      × ((m.object a1).cipher ≡ some p1)

  module _ (a0 a1 p0 p1 : ℕ) where
    find_first :
        (m : Mem D Ct)
        → TwoCiphers a0 a1 p0 p1 m
        → chain_index (m.cell p0) ≡ 1
        → 1 < chain_index (m.cell p1)
        → find_smallest B (a0 ∷ a1 ∷ []) 0 (0, size_max) m ≡ ok ((0, 1), m)
    unfolding find_smallest
    find_first m (c0, c1, e0, e1) one above =
        rw (c0, e0, one, c1, e1, ge→ltb (chain_index (m.cell p1)) 1 (omega arith))

    skip_second :
        (q : ℕ) (m : Mem D Ct)
        → TwoCiphers a0 a1 p0 p1 m
        → chain_index (m.cell p0) ≡ 1
        → chain_index (m.cell q) ≡ 1
        → match_rest B q 1 (a0 ∷ a1 ∷ []) 0 m ≡ ok (tt, m)
    unfolding match_rest
    skip_second q m (c0, c1, e0, e1) one copy =
        rw (c0, pointer_of m a0 p0 e0, ◌>>=◌, run_equal q p0 m (copy ∙ sym one), one, c1)

    -- Two ciphertexts in cells that exist, the first at level 1 and the second above it: the call
    -- returns 1, the smallest level, no object has changed, and the second ciphertext is still
    -- above level 1.
    pub match_to_smallest_chain_index-skips :
        (m : Mem D Ct)
        → TwoCiphers a0 a1 p0 p1 m
        → p0 ≢ m.next
        → p1 ≢ m.next
        → chain_index (m.cell p0) ≡ 1
        → 1 < chain_index (m.cell p1)
        → (m' : Mem D Ct) × (match_to_smallest_chain_index B (a0 ∷ a1 ∷ []) m ≡ ok (1, m'))
          × (m'.object ≡ m.object)
          × (1 < chain_index (m'.cell p1))
    unfolding match_to_smallest_chain_index
    match_to_smallest_chain_index-skips m two n0 n1 one above =
        let m' : Mem D Ct = record m {
          cell = update m.cell m.next (m.cell p0);
          next = m.next + 1;
        } in
        let kept : m'.cell p0 ≡ m.cell p0 = rw (ne→== p0 m.next n0) in
        let copied : m'.cell m.next ≡ m.cell p0 = rw (==_refl m.next) in
        let skipped =
          skip_second m.next m' two (ap chain_index kept ∙ one) (ap chain_index copied ∙ one) in
        (
          m',
          run-bind (find_smallest B (a0 ∷ a1 ∷ []) 0 (0, size_max)) _ m (find_first m two one above)
              ∙ run-bind (pointer B (m.object a0)) _ m (pointer_of m a0 p0 two.2)
              ∙ run-bind (match_rest B m.next 1 (a0 ∷ a1 ∷ []) 0) (λ _. lift B (ok 1)) m' skipped,
          refl,
          rw (ne→== p1 m.next n1) above,
        )
