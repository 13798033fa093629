-- ===== src/Tensor/Chunks/Cover.antt =====
-- The messages of `write_to_pb_tensors` hold every element once.
use mathlib.Core.Path.{subst}
use native.Mathlib.Nat.{suc-mul, add-mul, div-add-mod', mod-lt}
use he_transformer_research.Base.{
  ap, ◌∙◌, ==_refl, sym, ℕ, zero, suc, ◌+◌, ◌-◌, ◌*◌, ◌/◌, ◌%◌, ◌≤◌, ◌<◌, ◌≡◌, refl, List, [], ◌∷◌,
  true, false, ◌==◌, if◌then◌else◌, ne→==, arith,
}
use he_transformer_research.Tensor.Chunks.{num_tensors, chunk_loop, chunks}

-- The ranges follow one another from `a` to `b`, each of 1 to `max_num` elements.
abbrev pub Covers : ℕ → List (ℕ × ℕ) → ℕ → ℕ → Type 0
Covers max_num [] a b = a ≡ b
Covers max_num (c ∷ cs) a b =
    (c.0 ≡ a) × (0 < c.1) × (c.1 ≤ max_num) × Covers max_num cs (a + c.1) b

chunk_loop-Covers :
    (size max_num total tensor_idx n : ℕ)
    → 0 < max_num
    → (total - 1) * max_num < size
    → size ≤ total * max_num
    → suc tensor_idx + n ≡ total
    → Covers max_num
        (chunk_loop size max_num total tensor_idx (suc n) (tensor_idx * max_num))
        (tensor_idx * max_num)
        size
unfolding chunk_loop
chunk_loop-Covers size max_num total i zero pos low high e =
    let t : (i == total - 1) ≡ true = ap (λ k. i == k) last ∙ ==_refl i in
    let l : (total - 1) * max_num ≡ i * max_num = ap (λ k. k * max_num) last in
    let h : total * max_num ≡ i * max_num + max_num =
      ap (λ k. k * max_num) next ∙ suc-mul i max_num in
    rw (t) (refl, omega arith, omega arith, omega arith)
  where
    last : total - 1 ≡ i
    last = omega arith

    next : total ≡ suc i
    next = omega arith
chunk_loop-Covers size max_num total i (suc n) pos low high e =
    let t : (i == total - 1) ≡ false = ne→== i (total - 1) (λ q. omega arith) in
    let next : (i + 1) * max_num ≡ i * max_num + max_num = omega (arith, add-mul i 1 max_num) in
    rw (t) (
      refl,
      pos,
      omega arith,
      subst (λ o. Covers max_num (chunk_loop size max_num total (i + 1) (suc n) o) o size) next
          (chunk_loop-Covers size max_num total (i + 1) n pos low high (omega arith)),
    )

-- The number of messages, and what they hold but for the last one.
rounded_up :
    (q r max_num size : ℕ)
    → size ≡ q * max_num + r
    → r < max_num
    → 0 < size
    → (t : ℕ) × (q + (if r == 0 then 0 else 1) ≡ suc t)
      × (t * max_num < size)
      × (size ≤ t * max_num + max_num)
rounded_up q (suc r) max_num size e h pos = (q, ground arith, omega arith, omega arith)
rounded_up zero zero max_num size e h pos = absurd (omega arith)
rounded_up (suc q) zero max_num size e h pos =
    (q, ground arith, omega (arith, suc-mul q max_num), omega (arith, suc-mul q max_num))

-- A tensor of any number of elements but 0 is sent in messages that follow one another, each of at
-- least one element and at most `max_num`, and that end with the last element.
pub chunks-Covers :
    (size max_num : ℕ) → 0 < size → 0 < max_num → Covers max_num (chunks size max_num) 0 size
unfolding chunks num_tensors
chunks-Covers size max_num some_size pos =
    let q = size / max_num in
    let r = size % max_num in
    let parts : size ≡ q * max_num + r = omega (arith, div-add-mod' size max_num) in
    let (t, count, low, high) = rounded_up q r max_num size parts (mod-lt size pos) some_size in
    let prev : t ≡ suc t - 1 = omega arith in
    let low' : (suc t - 1) * max_num < size = subst (λ k. k * max_num < size) prev low in
    let high' : size ≤ suc t * max_num = omega (arith, suc-mul t max_num, high) in
    let cover = chunk_loop-Covers size max_num (suc t) 0 t pos low' high' (omega arith) in
    let at_zero : 0 * max_num ≡ 0 = omega arith in
    let from_zero : Covers max_num (chunk_loop size max_num (suc t) 0 (suc t) 0) 0 size =
      subst (λ o. Covers max_num (chunk_loop size max_num (suc t) 0 (suc t) o) o size) at_zero
        cover in
    subst (λ k. Covers max_num (chunk_loop size max_num k 0 k 0) 0 size) (sym count) from_zero

none_before : (t size max_num : ℕ) → t * max_num < size → size ≤ max_num → t ≡ 0
none_before zero size max_num low fits = refl
none_before (suc t) size max_num low fits = absurd (omega (arith, suc-mul t max_num))

-- A tensor that fits in one message is sent in one.
pub chunks-one :
    (size max_num : ℕ) → 0 < size → size ≤ max_num → chunks size max_num ≡ (0, size) ∷ []
unfolding chunks num_tensors chunk_loop
chunks-one size max_num some_size fits =
    let q = size / max_num in
    let r = size % max_num in
    let parts : size ≡ q * max_num + r = omega (arith, div-add-mod' size max_num) in
    let small : r < max_num = mod-lt size (omega arith) in
    let (t, count, low, high) = rounded_up q r max_num size parts small some_size in
    let one : q + (if r == 0 then 0 else 1) ≡ 1 =
      count ∙ ap suc (none_before t size max_num low fits) in
    let whole : size - 0 * max_num ≡ size = omega arith in
    let loop : chunk_loop size max_num 1 0 1 0 ≡ (0, size) ∷ [] = ap (λ n. (0, n) ∷ []) whole in
    subst (λ k. chunk_loop size max_num k 0 k 0 ≡ (0, size) ∷ []) (sym one) loop
