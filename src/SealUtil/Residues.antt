-- ===== src/SealUtil/Residues.antt =====
-- The residues of one value: the `encode` of a single `double` in src/seal/seal_util.cpp, after the value
-- was scaled and rounded, with the magnitude of the rounded value as a number. A `double` is divided by
-- 2^64 and its remainder taken without rounding, so that its words are those of the number.
pub mod Exact
use native.Mathlib.Nat.{
  add-mul-mod_self_right, div-add-mod', mod-mod, mod-lt, mod-add-div', div-lt_iff_lt-mul, pow-suc,
}
use mathlib.Core.Path.{subst}
use he_transformer_research.Base.{
  ℕ, zero, suc, ◌+◌, ◌-◌, ◌*◌, ◌/◌, ◌%◌, ◌^◌, ◌<◌, ◌≤◌, ◌≡◌, refl, sym, ap, ◌∙◌, Bool, true, false,
  not, List, [], ◌∷◌, map, length, All, Bool-cases, inl, inr, lt→ltb, ne→==, ltb, leb, ◌==◌,
  if◌then◌else◌, arith, Result, ok, err, undefined, check_failed, require, ◌>>=◌, ◌>>◌,
}
use he_transformer_research.SealUtil.Words.{u64_mod}

-- `static_cast<uint64_t>` of a magnitude that does not fit is undefined.
abbrev pub to_word : ℕ → Result ℕ
to_word c = if ltb c u64_mod then ok c else err undefined

-- The words of a coefficient in so many places, which are zero at first; more words than places are
-- written past them.
unfoldable pub coefficient_words : ℕ → ℕ → Result (List ℕ)
coefficient_words zero coeffd = if coeffd == 0 then ok [] else err undefined
coefficient_words (suc places) coeffd = do
  rest ← coefficient_words places (coeffd / u64_mod)
  ok (coeffd % u64_mod ∷ rest)

-- `barrett_reduce_128` takes the lower word, the upper one and a modulus, `negate_uint_mod` a residue and
-- its modulus; both are SEAL's.
module _ (barrett_reduce_128 : ℕ → ℕ → ℕ → ℕ) (negate_uint_mod : ℕ → ℕ → ℕ) where
  -- Blocks of two words are reduced from the top.
  unfoldable pub reduce_blocks : ℕ → List ℕ → ℕ
  reduce_blocks modulus [] = 0
  reduce_blocks modulus (w ∷ []) = w
  reduce_blocks modulus (w ∷ v ∷ words) =
      barrett_reduce_128 w (reduce_blocks modulus (v ∷ words)) modulus

  unfoldable pub decompose_single_coeff : List ℕ → List ℕ → Result (List ℕ)
  unfolding reduce_blocks
  decompose_single_coeff moduli words = do
    require (not (length moduli == 1)) check_failed
    ok (map (λ m. reduce_blocks m words) moduli)

  unfoldable pub with_sign : Bool → List ℕ → List ℕ → List ℕ
  with_sign is_negative (m ∷ moduli) (r ∷ residues) =
      (if is_negative then negate_uint_mod r m else r) ∷ with_sign is_negative moduli residues
  with_sign is_negative moduli residues = []

  unfoldable pub one_word : List ℕ → ℕ → Result (List ℕ)
  one_word moduli coeffd = do coeffu ← to_word coeffd; ok (map (λ m. coeffu % m) moduli)

  unfoldable pub two_words : List ℕ → ℕ → Result (List ℕ)
  two_words moduli coeffd = do
    high ← to_word (coeffd / u64_mod)
    ok (map (λ m. barrett_reduce_128 (coeffd % u64_mod) high m) moduli)

  unfoldable pub more_words : List ℕ → ℕ → Result (List ℕ)
  unfolding coefficient_words decompose_single_coeff
  more_words moduli coeffd = do
    words ← coefficient_words (length moduli) coeffd
    decompose_single_coeff moduli words

  -- The three ways by the count of bits.
  unfoldable pub encode_coefficient : List ℕ → ℕ → Bool → ℕ → Result (List ℕ)
  unfolding one_word two_words more_words with_sign
  encode_coefficient moduli coeff_bit_count is_negative coeffd = do
    residues ←
        if leb coeff_bit_count 64
        then one_word moduli coeffd
        else (if leb coeff_bit_count 128 then two_words moduli coeffd else more_words moduli coeffd)
    ok (with_sign is_negative moduli residues)
