-- ===== src/SealUtil/Residues/Exact.antt =====
-- That the three ways to encode a value in src/seal/seal_util.cpp give its residues.
use native.Mathlib.Nat.{
  add-mul-mod_self_right, div-add-mod', mod-mod, mod-lt, mod-add-div', div-lt_iff_lt-mul, pow-suc,
}
use mathlib.Core.Path.{subst}
use he_transformer_research.Base.{
  ℕ, zero, suc, ◌+◌, ◌-◌, ◌*◌, ◌/◌, ◌%◌, ◌^◌, ◌<◌, ◌≡◌, refl, sym, ap, ◌∙◌, Bool, true, false, List,
  [], ◌∷◌, map, length, All, Bool-cases, inl, inr, lt→ltb, ne→==, leb, if◌then◌else◌, arith, ok,
}
use he_transformer_research.SealUtil.Words.{u64_mod}
use he_transformer_research.SealUtil.Residues.{
  coefficient_words, reduce_blocks, decompose_single_coeff, with_sign, one_word, two_words,
  more_words, encode_coefficient,
}

-- The number of words.
abbrev number_of : List ℕ → ℕ
number_of [] = 0
number_of (w ∷ words) = w + number_of words * u64_mod

places_left : (places c : ℕ) → c < u64_mod ^ suc places → c / u64_mod < u64_mod ^ places
places_left places c h =
    let pos : 0 < u64_mod = omega arith in
    (div-lt_iff_lt-mul {x = c} {y = u64_mod ^ places} pos).1
      (subst (λ x. c < x) (pow-suc u64_mod places) h)

coefficient_words-number :
    (places c : ℕ)
    → c < u64_mod ^ places
    → (words : List ℕ) × (coefficient_words places c ≡ ok words)
      × (number_of words ≡ c)
      × (length words ≡ places)
unfolding coefficient_words
coefficient_words-number zero c h = let e : c ≡ 0 = omega arith in ([], rw e refl, sym e, refl)
coefficient_words-number (suc places) c h =
    let (words, rest, number, size) =
      coefficient_words-number places (c / u64_mod) (places_left places c h) in
    (
      c % u64_mod ∷ words,
      rw rest refl,
      ap (λ x. c % u64_mod + x * u64_mod) number ∙ mod-add-div' c u64_mod,
      ap suc size,
    )

-- A multiple of the modulus does not matter in the upper word.
block-mod : (lo r m : ℕ) → (lo + r * u64_mod) % m ≡ (lo + r % m * u64_mod) % m
block-mod lo r m =
    let whole = div-add-mod' r m in
    let e : lo + r * u64_mod ≡ (lo + r % m * u64_mod) + (r / m * u64_mod) * m =
      omega (arith, whole) in
    ap (λ x. x % m) e ∙ add-mul-mod_self_right (lo + r % m * u64_mod) (r / m * u64_mod) m

-- What SEAL documents of its two functions.
abbrev pub IsBarrett128 : (ℕ → ℕ → ℕ → ℕ) → Type 0
IsBarrett128 barrett = (lo hi m : ℕ) → 0 < m → barrett lo hi m ≡ (lo + hi * u64_mod) % m

abbrev pub IsNegation : (ℕ → ℕ → ℕ) → Type 0
IsNegation negate = (r m : ℕ) → r < m → negate r m ≡ (m - r) % m

-- The residue of a coefficient with its sign.
abbrev pub signed_residue : Bool → ℕ → ℕ → ℕ
signed_residue is_negative c m = if is_negative then (m - c % m) % m else c % m

-- The bits that are counted are enough for the magnitude, and there are two moduli or more where they
-- are over 128.
abbrev pub IsCounted : ℕ → ℕ → ℕ → Type 0
IsCounted bits places c =
    (leb bits 64 ≡ true → c < u64_mod)
    × (leb bits 128 ≡ true → c / u64_mod < u64_mod)
    × (leb bits 128 ≡ false → (1 < places) × (c < u64_mod ^ places))

module _ (barrett : ℕ → ℕ → ℕ → ℕ) (negate : ℕ → ℕ → ℕ) (is_barrett : IsBarrett128 barrett)
    (is_negation : IsNegation negate) where
  reduce_blocks-step :
      (m w v : ℕ) (words : List ℕ)
      → 0 < m
      → reduce_blocks barrett negate m (v ∷ words) % m ≡ number_of (v ∷ words) % m
      → reduce_blocks barrett negate m (w ∷ v ∷ words) ≡ number_of (w ∷ v ∷ words) % m
  unfolding reduce_blocks
  reduce_blocks-step m w v words pos h =
      is_barrett w (reduce_blocks barrett negate m (v ∷ words)) m pos
      ∙ block-mod w (reduce_blocks barrett negate m (v ∷ words)) m
      ∙ ap (λ x. (w + x * u64_mod) % m) h
      ∙ sym (block-mod w (number_of (v ∷ words)) m)

  reduce_blocks-mod :
      (m w : ℕ) (words : List ℕ)
      → 0 < m
      → reduce_blocks barrett negate m (w ∷ words) % m ≡ number_of (w ∷ words) % m
  unfolding reduce_blocks
  reduce_blocks-mod m w [] pos = let e : w ≡ w + 0 * u64_mod = omega arith in ap (λ x. x % m) e
  reduce_blocks-mod m w (v ∷ words) pos =
      ap (λ x. x % m) (reduce_blocks-step m w v words pos (reduce_blocks-mod m v words pos))
      ∙ mod-mod (number_of (w ∷ v ∷ words)) m

  reduce_blocks-number :
      (words : List ℕ) (m : ℕ)
      → 1 < length words
      → 0 < m
      → reduce_blocks barrett negate m words ≡ number_of words % m
  reduce_blocks-number [] m h pos = absurd (omega arith)
  reduce_blocks-number (w ∷ []) m h pos = absurd (omega arith)
  reduce_blocks-number (w ∷ v ∷ words) m h pos =
      reduce_blocks-step m w v words pos (reduce_blocks-mod m v words pos)

  with_sign-residues :
      (is_negative : Bool) (c : ℕ) (moduli : List ℕ) (f : ℕ → ℕ)
      → All (λ m. 0 < m) moduli
      → ((m : ℕ) → 0 < m → f m ≡ c % m)
      → with_sign barrett negate is_negative moduli (map f moduli)
        ≡ map (signed_residue is_negative c) moduli
  unfolding with_sign
  with_sign-residues is_negative c [] f all same = refl
  with_sign-residues true c (m ∷ moduli) f (pos, all) same =
      let negated : negate (f m) m ≡ (m - c % m) % m =
        ap (λ r. negate r m) (same m pos) ∙ is_negation (c % m) m (mod-lt c pos) in
      rw (negated, with_sign-residues true c moduli f all same) refl
  with_sign-residues false c (m ∷ moduli) f (pos, all) same =
      rw (same m pos, with_sign-residues false c moduli f all same) refl

  residues-value :
      (moduli : List ℕ) (bits c : ℕ)
      → IsCounted bits (length moduli) c
      → (f : ℕ → ℕ) × ((m : ℕ) → 0 < m → f m ≡ c % m)
        × ((if leb bits 64
              then one_word barrett negate moduli c
              else (if leb bits 128
                  then two_words barrett negate moduli c
                  else more_words barrett negate moduli c))
            ≡ ok (map f moduli))
  unfolding one_word two_words more_words decompose_single_coeff
  residues-value moduli bits c (one_fits, two_fit, more) = elim (Bool-cases (leb bits 64)) [
    | inl e ↦ ((λ m. c % m), (λ m pos. refl), rw (e, lt→ltb c u64_mod (one_fits e)) refl)
    | inr e ↦ elim (Bool-cases (leb bits 128)) [
      | inl e' ↦ (
        (λ m. barrett (c % u64_mod) (c / u64_mod) m),
        (λ m pos.
            is_barrett (c % u64_mod) (c / u64_mod) m pos
            ∙ ap (λ x. x % m) (mod-add-div' c u64_mod)),
        rw (e, e', lt→ltb (c / u64_mod) u64_mod (two_fit e')) refl,
      )
      | inr e' ↦
          let (several, fits) = more e' in
          let (words, split, number, size) = coefficient_words-number (length moduli) c fits in
          (
            (λ m. reduce_blocks barrett negate m words),
            (λ m pos. reduce_blocks-number words m (omega arith) pos ∙ ap (λ x. x % m) number),
            rw (e, e', split, ne→== (length moduli) 1 (λ q. omega arith)) refl,
          )
    ]
  ]

  -- For counted bits, the residues are those of the coefficient modulo each modulus, and with a sign
  -- those of its negation.
  pub encode_coefficient-residues :
      (moduli : List ℕ) (bits : ℕ) (is_negative : Bool) (c : ℕ)
      → All (λ m. 0 < m) moduli
      → IsCounted bits (length moduli) c
      → encode_coefficient barrett negate moduli bits is_negative c
        ≡ ok (map (signed_residue is_negative c) moduli)
  unfolding encode_coefficient
  encode_coefficient-residues moduli bits is_negative c all counted =
      let (f, same, residues) = residues-value moduli bits c counted in
      rw (residues) (ap ok (with_sign-residues is_negative c moduli f all same))
