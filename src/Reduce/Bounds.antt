-- ===== src/Reduce/Bounds.antt =====
-- `max_seal` on plaintexts of one value finds the maximum.
use he_transformer_research.Base.{
  ℕ, suc, ◌≡◌, refl, ◌∙◌, true, false, some, List, [], ◌∷◌, map, get_elem?, All, if◌then◌else◌,
  Bool-cases, inl, inr, ◌⊎◌, ok,
}
use he_transformer_research.Backend.{Backend}
use he_transformer_research.Machine.{Mem, of_plaintext}
use he_transformer_research.Machine.{◌>>=◌ as ◌>>=M◌}
use he_transformer_research.Moves.{Coordinates}
use he_transformer_research.Reduce.{max_into, max_values, max_loop}

module _ (N : Coordinates) (B : Backend) where
  open B use {D, Ct, less}

  -- An element of the input: its index, its address and its value.
  abbrev pub Element : Type 0
  Element = ℕ × ℕ × D

  abbrev pub IsThere : List ℕ → Mem D Ct → Element → Type 0
  IsThere arg m e =
      (get_elem? arg (e.0) ≡ some (e.1)) × (m.object (e.1) ≡ of_plaintext (e.2 ∷ []) false)

  pub maximum : D → List Element → D
  maximum x [] = x
  maximum x (e ∷ es) = maximum (if less x (e.2) then e.2 else x) es

  max_loop-maximum :
      (arg : List ℕ) (batch_size : ℕ) (es : List Element) (x : D) (m : Mem D Ct)
      → All (IsThere arg m) es
      → max_loop N B arg batch_size (map (λ e. (e.0, 0)) es) ((x ∷ []) ∷ []) m
        ≡ ok ((maximum x es ∷ []) ∷ [], m)
  unfolding max_loop max_values max_into maximum of_plaintext
  max_loop-maximum arg batch_size [] x m h = refl
  max_loop-maximum arg batch_size (e ∷ es) x m h =
      let ((at, object), rest) = h in
      let ih = max_loop-maximum arg batch_size es (if less x (e.2) then e.2 else x) m rest in
      simp (◌>>=M◌, at, object, ih)

  -- The value of one of the elements, or the first one.
  abbrev pub IsOneOf : D → List Element → D → Type 0
  IsOneOf x es top = (top ≡ x) ⊎ ((i : ℕ) × (e : Element) × (get_elem? es i ≡ some e) × (top ≡ e.2))

  maximum-IsOneOf : (es : List Element) (x : D) → IsOneOf x es (maximum x es)
  unfolding maximum
  maximum-IsOneOf [] x = inl refl
  maximum-IsOneOf (e ∷ es) x =
      let y = if less x (e.2) then e.2 else x in
      elim (maximum-IsOneOf es y) [
        | inl q ↦ elim (Bool-cases (less x (e.2))) [
          | inl t ↦ inr (0, e, refl, q ∙ simp (t))
          | inr f ↦ inl (q ∙ simp (f))
        ]
        | inr (i, e', at, q) ↦ inr (suc i, e', at, q)
      ]

  module _ (IsNumber : D → Type 0)
      (trans : (a b c : D)
        → IsNumber a
        → IsNumber b
        → IsNumber c
        → less a b ≡ false
        → less b c ≡ false
        → less a c ≡ false)
      (asym : (a b : D) → IsNumber a → IsNumber b → less a b ≡ true → less b a ≡ false)
      (irrefl : (a : D) → IsNumber a → less a a ≡ false) where
    larger-IsNumber : (x y : D) → IsNumber x → IsNumber y → IsNumber (if less x y then y else x)
    larger-IsNumber x y nx ny = elim (less x y) as (λ b. IsNumber (if b then y else x)) [
      | true ↦ ny
      | false ↦ nx
    ]

    maximum-ge :
        (es : List Element) (x : D)
        → IsNumber x
        → All (λ e. IsNumber (e.2)) es
        → IsNumber (maximum x es)
          × (less (maximum x es) x ≡ false)
          × All (λ e. less (maximum x es) (e.2) ≡ false) es
    unfolding maximum
    maximum-ge [] x nx ns = (nx, irrefl x nx, tt)
    maximum-ge (e ∷ es) x nx (ne, ns) =
        let y = if less x (e.2) then e.2 else x in
        let ny : IsNumber y = larger-IsNumber x (e.2) nx ne in
        let (top, low, rest) = maximum-ge es y ny ns in
        let above : (less y x ≡ false) × (less y (e.2) ≡ false) = elim (Bool-cases (less x (e.2))) [
          | inl q ↦ (simp (q, asym x (e.2) nx ne q), simp (q, irrefl (e.2) ne))
          | inr q ↦ (simp (q, irrefl x nx), simp (q))
        ] in
        (
          top,
          trans (maximum y es) y x top ny nx low (above.0),
          (trans (maximum y es) y (e.2) top ny ne low (above.1), rest),
        )

    -- For one output, whose elements are plaintexts of one value: where these values and the first one
    -- are numbers, which `<` orders, the loop ends with one of the values, or the first one, and none
    -- of them is above it.
    pub max_loop-IsOneOf :
        (arg : List ℕ) (batch_size : ℕ) (es : List Element) (x : D) (m : Mem D Ct)
        → IsNumber x
        → All (λ e. IsNumber (e.2)) es
        → All (IsThere arg m) es
        → (top : D) × (max_loop N B arg batch_size (map (λ e. (e.0, 0)) es) ((x ∷ []) ∷ []) m
            ≡ ok ((top ∷ []) ∷ [], m))
          × (less top x ≡ false)
          × All (λ e. less top (e.2) ≡ false) es
          × IsOneOf x es top
    max_loop-IsOneOf arg batch_size es x m nx ns there =
        let (top, low, rest) = maximum-ge es x nx ns in
        (
          maximum x es,
          max_loop-maximum arg batch_size es x m there,
          low,
          rest,
          maximum-IsOneOf es x,
        )
