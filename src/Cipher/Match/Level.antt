-- ===== src/Cipher/Match/Level.antt =====
-- After a match that returns both ciphertexts stand at the lower of their two levels.
use he_transformer_research.Base.{
  ℕ, ◌≤◌, ◌<◌, min, ◌≡◌, ◌≢◌, refl, true, arith, ok, err, Error, Result-cases, inl, inr, ◌⊎◌,
  ==_refl, lt→ltb, ge→ltb, sym, ne→==,
}
use he_transformer_research.Backend.{Backend}
use he_transformer_research.Machine.{Mem, update}
use he_transformer_research.Cipher.Match.{
  within_rescale_tolerance, match_scale, switch_higher, match_modulus_and_scale_inplace,
}

-- What SEAL documents of `mod_switch_to` on ciphertexts and of the `scale()` reference: a switch down
-- the chain, if it does not throw, comes to that level and keeps the scale, and the scale is separate
-- from the level.
pub record ChainLaws (B : Backend) : Type 0 where
  pub switch_down :
      (c : B.Ct) (i : ℕ) (c' : B.Ct)
      → i ≤ B.chain_index c
      → B.mod_switch_to c i ≡ ok c'
      → (B.chain_index c' ≡ i) × (B.scale c' ≡ B.scale c)
  pub scale-with_scale : (s : B.D) (c : B.Ct) → B.scale (B.with_scale s c) ≡ s
  pub chain_index-with_scale :
      (s : B.D) (c : B.Ct) → B.chain_index (B.with_scale s c) ≡ B.chain_index c

lt_le : {a b : ℕ} → a < b → a ≤ b
lt_le h = omega arith

three_ways : (a b : ℕ) → (a ≡ b) ⊎ ((a < b) ⊎ (b < a))
three_ways a b = ground arith

lt_ne : {a b : ℕ} → a < b → a ≢ b
lt_ne h = omega arith

module _ (B : Backend) (laws : ChainLaws B) where
  open B use {Ct, D, chain_index, scale, with_scale}

  -- What a match of the cells `p0` and `p1` leaves.
  pub record Matched (p0 p1 : ℕ) (m m' : Mem D Ct) : Type 0 where
    pub first : chain_index (m'.cell p0) ≡ min (chain_index (m.cell p0)) (chain_index (m.cell p1))
    pub second : chain_index (m'.cell p1) ≡ min (chain_index (m.cell p0)) (chain_index (m.cell p1))
    pub others : (q : ℕ) → q ≢ p0 → q ≢ p1 → m'.cell q ≡ m.cell q
    pub objects : m'.object ≡ m.object

  near_kept :
      (c0 c1 d0 d1 : Ct)
      → scale d0 ≡ scale c0
      → scale d1 ≡ scale c1
      → within_rescale_tolerance B c0 c1 ≡ true
      → within_rescale_tolerance B d0 d1 ≡ true
  unfolding within_rescale_tolerance
  near_kept c0 c1 d0 d1 e0 e1 near = rw (e0, e1) near

  run_lower :
      (p0 p1 : ℕ) (m : Mem D Ct) (c : Ct)
      → p0 ≢ p1
      → within_rescale_tolerance B (m.cell p0) (m.cell p1) ≡ true
      → chain_index (m.cell p0) < chain_index (m.cell p1)
      → B.mod_switch_to (m.cell p1) (chain_index (m.cell p0)) ≡ ok c
      → chain_index c ≡ chain_index (m.cell p0)
      → scale c ≡ scale (m.cell p1)
      → match_modulus_and_scale_inplace B p0 p1 m
        ≡ ok (
          tt,
          record m { cell = update (update m.cell p1 c) p0 (with_scale (scale c) (m.cell p0)) },
        )
  unfolding match_modulus_and_scale_inplace match_scale switch_higher
  run_lower p0 p1 m c ne near lt run level kept =
      rw (ne→== _ _ (lt_ne lt), near, lt→ltb _ _ lt, run, ne→== p0 p1 ne, ==_refl p1)
        (rw (
          level,
          ==_refl (chain_index (m.cell p0)),
          match_scale,
          ne→== p0 p1 ne,
          ==_refl p1,
          near_kept (m.cell p0) (m.cell p1) (m.cell p0) c refl kept near,
        ))

  run_higher :
      (p0 p1 : ℕ) (m : Mem D Ct) (c : Ct)
      → p0 ≢ p1
      → within_rescale_tolerance B (m.cell p0) (m.cell p1) ≡ true
      → chain_index (m.cell p1) < chain_index (m.cell p0)
      → B.mod_switch_to (m.cell p0) (chain_index (m.cell p1)) ≡ ok c
      → chain_index c ≡ chain_index (m.cell p1)
      → scale c ≡ scale (m.cell p0)
      → match_modulus_and_scale_inplace B p0 p1 m
        ≡ ok (
          tt,
          record m { cell = update (update m.cell p0 c) p0 (with_scale (scale (m.cell p1)) c) },
        )
  unfolding match_modulus_and_scale_inplace match_scale switch_higher
  run_higher p0 p1 m c ne near lt run level kept =
      rw
        (
          ne→== _ _ (λ e. lt_ne lt (sym e)),
          near,
          ge→ltb _ _ (lt_le lt),
          run,
          ==_refl p0,
          ne→== p1 p0 (λ e. ne (sym e)),
        )
        (rw (
          level,
          ==_refl (chain_index (m.cell p1)),
          match_scale,
          ==_refl p0,
          ne→== p1 p0 (λ e. ne (sym e)),
          near_kept (m.cell p0) (m.cell p1) c (m.cell p1) kept refl near,
        ))

  update_others :
      (f : ℕ → Ct) (a b q : ℕ) (x y : Ct) → q ≢ a → q ≢ b → update (update f a x) b y q ≡ f q
  update_others f a b q x y ha hb = rw (ne→== q b hb, ne→== q a ha)

  run_same :
      (p0 p1 : ℕ) (m : Mem D Ct)
      → chain_index (m.cell p0) ≡ chain_index (m.cell p1)
      → match_modulus_and_scale_inplace B p0 p1 m ≡ ok (tt, m)
  unfolding match_modulus_and_scale_inplace
  run_same p0 p1 m same = rw (same, ==_refl (chain_index (m.cell p1)))

  Matched-same :
      (p0 p1 : ℕ) (m : Mem D Ct)
      → chain_index (m.cell p0) ≡ chain_index (m.cell p1)
      → Matched p0 p1 m m
  Matched-same p0 p1 m same = record {
    first = omega arith;
    second = omega arith;
    others = λ q a b. refl;
    objects = refl;
  }

  Matched-lower :
      (p0 p1 : ℕ) (m : Mem D Ct) (c : Ct)
      → p0 ≢ p1
      → chain_index (m.cell p0) < chain_index (m.cell p1)
      → chain_index c ≡ chain_index (m.cell p0)
      → Matched p0 p1 m
          (record m { cell = update (update m.cell p1 c) p0 (with_scale (scale c) (m.cell p0)) })
  Matched-lower p0 p1 m c ne lt level = record {
    first = rw (==_refl p0) (omega (arith, laws.chain_index-with_scale (scale c) (m.cell p0)));
    second = rw (ne→== p1 p0 (λ e. ne (sym e)), ==_refl p1) (omega arith);
    others = λ q a b. update_others m.cell p1 p0 q c (with_scale (scale c) (m.cell p0)) b a;
    objects = refl;
  }

  Matched-higher :
      (p0 p1 : ℕ) (m : Mem D Ct) (c : Ct)
      → p0 ≢ p1
      → chain_index (m.cell p1) < chain_index (m.cell p0)
      → chain_index c ≡ chain_index (m.cell p1)
      → Matched p0 p1 m
          (record m { cell = update (update m.cell p0 c) p0 (with_scale (scale (m.cell p1)) c) })
  Matched-higher p0 p1 m c ne lt level = record {
    first = rw (==_refl p0) (omega (arith, laws.chain_index-with_scale (scale (m.cell p1)) c));
    second = rw (ne→== p1 p0 (λ e. ne (sym e))) (omega arith);
    others = λ q a b. update_others m.cell p0 p0 q c (with_scale (scale (m.cell p1)) c) a a;
    objects = refl;
  }

  -- SEAL throws when the ciphertext that is higher in the chain is switched to the level of the other.
  abbrev pub Throws : ℕ → ℕ → Mem D Ct → Error → Type 0
  Throws p0 p1 m e =
      ((chain_index (m.cell p0) < chain_index (m.cell p1))
        × (B.mod_switch_to (m.cell p1) (chain_index (m.cell p0)) ≡ err e))
      ⊎ ((chain_index (m.cell p1) < chain_index (m.cell p0))
          × (B.mod_switch_to (m.cell p0) (chain_index (m.cell p1)) ≡ err e))

  run-Throws :
      (p0 p1 : ℕ) (m : Mem D Ct) (e : Error)
      → within_rescale_tolerance B (m.cell p0) (m.cell p1) ≡ true
      → Throws p0 p1 m e
      → match_modulus_and_scale_inplace B p0 p1 m ≡ err e
  unfolding match_modulus_and_scale_inplace switch_higher
  run-Throws p0 p1 m e near (inl (lt, thrown)) =
      rw (ne→== _ _ (lt_ne lt), near, lt→ltb _ _ lt, thrown) refl
  run-Throws p0 p1 m e near (inr (gt, thrown)) =
      rw (ne→== _ _ (λ q. lt_ne gt (sym q)), near, ge→ltb _ _ (lt_le gt), thrown) refl

  -- Two distinct cells within the rescale tolerance: both end at the lower of the two levels, and no
  -- other cell and no object changes, or SEAL throws when the one that is higher in the chain is
  -- switched, and that is what is thrown. Where SEAL's switches come to the level that is asked for
  -- and keep the scale.
  pub match_modulus_and_scale_inplace-Matched :
      (p0 p1 : ℕ) (m : Mem D Ct)
      → p0 ≢ p1
      → within_rescale_tolerance B (m.cell p0) (m.cell p1) ≡ true
      → ((m' : Mem D Ct) × (match_modulus_and_scale_inplace B p0 p1 m ≡ ok (tt, m'))
          × Matched p0 p1 m m')
        ⊎ ((e : Error) × (match_modulus_and_scale_inplace B p0 p1 m ≡ err e) × Throws p0 p1 m e)
  match_modulus_and_scale_inplace-Matched p0 p1 m ne near =
      let i0 = chain_index (m.cell p0) in
      let i1 = chain_index (m.cell p1) in
      elim (three_ways i0 i1) [
        | inl same ↦ inl (m, run_same p0 p1 m same, Matched-same p0 p1 m same)
        | inr (inl lt) ↦ elim (Result-cases (B.mod_switch_to (m.cell p1) i0)) [
          | inl (e, thrown) ↦
              inr (e, run-Throws p0 p1 m e near (inl (lt, thrown)), inl (lt, thrown))
          | inr (c, run) ↦
              let (level, kept) = laws.switch_down (m.cell p1) i0 c (lt_le lt) run in
              inl (
                _,
                run_lower p0 p1 m c ne near lt run level kept,
                Matched-lower p0 p1 m c ne lt level,
              )
        ]
        | inr (inr gt) ↦ elim (Result-cases (B.mod_switch_to (m.cell p0) i1)) [
          | inl (e, thrown) ↦
              inr (e, run-Throws p0 p1 m e near (inr (gt, thrown)), inr (gt, thrown))
          | inr (c, run) ↦
              let (level, kept) = laws.switch_down (m.cell p0) i1 c (lt_le gt) run in
              inl (
                _,
                run_higher p0 p1 m c ne near gt run level kept,
                Matched-higher p0 p1 m c ne gt level,
              )
        ]
      ]
