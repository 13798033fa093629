-- ===== src/Executor/Loop/Found.antt =====
-- What the steps of the loop of src/seal/he_seal_executable.cpp do to the map of tensors: what they keep
-- there, and what they find.
use Prim.Native.String.{String}
use text.Mathlib.Text.{◌==◌ as str_eq}
use text.Mathlib.TextEquality.{eq_iff}
use he_transformer_research.Base.{
  ℕ, ◌≡◌, refl, sym, ap, ◌∙◌, Bool, true, false, Option, none, some, List, [], ◌∷◌, map, ◌==◌, elem,
  All, Bool-cases, ==_refl, ◌⊎◌, Option-cases, Result-cases, inl, inr, if◌then◌else◌, Result, ok,
  err, Error, ◌>>=◌, out_of_range,
}
use he_transformer_research.Executor.Loop.{
  ExecNode, find_tensor, insert_tensor, inputs_at, erase_named, free_tensors, output_at, outputs_at,
}
use he_transformer_research.Executor.Loop.Wanted.{elem-rest, elem-first}

module _ {T : Type 0} where
  abbrev pub InMap : ℕ → List (ℕ × T) → Type 0
  InMap t map = (x : T) × (find_tensor t map ≡ some x)

  find_tensor-cons :
      (t u : ℕ) (x : T) (map : List (ℕ × T))
      → find_tensor t ((u, x) ∷ map) ≡ (if t == u then some x else find_tensor t map)
  unfolding find_tensor
  find_tensor-cons t u x map = refl

  InMap-head : (t u : ℕ) (x : T) (map : List (ℕ × T)) → (t == u) ≡ true → InMap t ((u, x) ∷ map)
  InMap-head t u x map e = (x, find_tensor-cons t u x map ∙ rw e refl)

  InMap-tail : (t u : ℕ) (x : T) (map : List (ℕ × T)) → InMap t map → InMap t ((u, x) ∷ map)
  InMap-tail t u x map (y, h) = elim (Bool-cases (t == u)) [
    | inl e ↦ InMap-head t u x map e
    | inr e ↦ (y, find_tensor-cons t u x map ∙ rw e h)
  ]

  InMap-later :
      (t u : ℕ) (x : T) (map : List (ℕ × T))
      → (t == u) ≡ false
      → InMap t ((u, x) ∷ map)
      → InMap t map
  InMap-later t u x map e (y, h) = (y, (rw e refl) ∙ sym (find_tensor-cons t u x map) ∙ h)

  pub inputs_at-found :
      (map : List (ℕ × T)) (ts : List ℕ)
      → All (λ t. InMap t map) ts
      → (xs : List T) × (inputs_at ts map ≡ ok xs)
  unfolding inputs_at
  inputs_at-found map [] found = ([], refl)
  inputs_at-found map (t ∷ ts) ((x, h), found) =
      let (xs, rest) = inputs_at-found map ts found in
      let at : Result T = elim (find_tensor t map) [ none ↦ err out_of_range | some x ↦ ok x ] in
      let value : at ≡ ok x = ap (λ o. elim o [ none ↦ err out_of_range | some x ↦ ok x ]) h in
      (x ∷ xs, simp (value, rest))

  insert_tensor-new :
      (u : ℕ) (x : T) (map : List (ℕ × T))
      → find_tensor u map ≡ none
      → insert_tensor u x map ≡ (u, x) ∷ map
  unfolding insert_tensor
  insert_tensor-new u x map e = ap (λ o. elim o [ none ↦ (u, x) ∷ map | some y ↦ map ]) e

module _ {T S : Type 0} (get_name : T → String) (name_of : ℕ → String)
    (create : ℕ → S → Result (T × S)) (calls : ExecNode → List T → List T → S → Result S)
    (enable_client : Bool) where
  -- A tensor of the map has the name of its own descriptor, or of none.
  abbrev pub IsNamed : List (ℕ × T) → Type 0
  IsNamed map = All (λ entry. (u : ℕ) → get_name (entry.1) ≡ name_of u → u ≡ entry.0) map

  module _ (P : Error → Type 0)
      (create_errors : (t : ℕ) (s : S) (e : Error) → create t s ≡ err e → P e)
      (create_names : (t : ℕ) (s : S) (r : T × S)
        → create t s ≡ ok r
        → (u : ℕ) → get_name (r.0) ≡ name_of u
        → u ≡ t) where
    abbrev Made : ℕ → List (ℕ × T) → T × List (ℕ × T) × S → Type 0
    Made t map r = IsNamed (r.1) × ((u : ℕ) → InMap u map → InMap u (r.1)) × InMap t (r.1)

    abbrev outcome : ℕ → List (ℕ × T) → S → Option T → Result (T × List (ℕ × T) × S)
    outcome t map s o = elim o [
      | some x ↦ ok (x, map, s)
      | none ↦ (do fresh ← create t s; ok (fresh.0, insert_tensor t (fresh.0) map, fresh.1))
    ]

    abbrev created : ℕ → List (ℕ × T) → Result (T × S) → Result (T × List (ℕ × T) × S)
    created t map r = (do fresh ← r; ok (fresh.0, insert_tensor t (fresh.0) map, fresh.1))

    output_at-cases :
        (t : ℕ) (map : List (ℕ × T)) (s : S)
        → IsNamed map
        → ((e : Error) × (output_at get_name name_of create calls enable_client t map s ≡ err e)
            × P e)
          ⊎ ((r : T × List (ℕ × T) × S) × (output_at get_name name_of create calls enable_client t
                  map s
                ≡ ok r)
              × Made t map r)
    unfolding output_at
    output_at-cases t map s named = elim (Option-cases (find_tensor t map)) [
      | inr (x, e) ↦ inr ((x, map, s), ap (outcome t map s) e, (named, λ u found. found, (x, e)))
      | inl e ↦ elim (Result-cases (create t s)) [
        | inl (thrown, q) ↦
            inl (thrown, ap (outcome t map s) e ∙ ap (created t map) q, create_errors t s thrown q)
        | inr ((x, s'), q) ↦ inr (
          (x, (t, x) ∷ map, s'),
          ap (outcome t map s) e
              ∙ ap (created t map) q
              ∙ ap (λ m. ok (x, m, s')) (insert_tensor-new t x map e),
          (
            (create_names t s (x, s') q, named),
            λ u found. InMap-tail u t x map found,
            InMap-head t t x map (==_refl t),
          ),
        )
      ]
    ]

    abbrev pub Outputs : List ℕ → List (ℕ × T) → List T × List (ℕ × T) × S → Type 0
    Outputs ts map r =
        IsNamed (r.1) × ((u : ℕ) → InMap u map → InMap u (r.1)) × All (λ t. InMap t (r.1)) ts

    pub outputs_at-cases :
        (ts : List ℕ) (map : List (ℕ × T)) (s : S)
        → IsNamed map
        → ((e : Error) × (outputs_at get_name name_of create calls enable_client ts map s ≡ err e)
            × P e)
          ⊎ ((r : List T × List (ℕ × T) × S) × (outputs_at get_name name_of create calls
                  enable_client ts map s
                ≡ ok r)
              × Outputs ts map r)
    unfolding outputs_at
    outputs_at-cases [] map s named = inr (([], map, s), refl, (named, λ u found. found, tt))
    outputs_at-cases (t ∷ ts) map s named = elim (output_at-cases t map s named) [
      | inl (thrown, q, p) ↦ inl (thrown, simp q, p)
      | inr ((x, map', s'), q, (named', keeps, made)) ↦ elim (outputs_at-cases ts map' s' named') [
        | inl (thrown, q', p) ↦ inl (thrown, simp (q, q'), p)
        | inr ((xs, map'', s''), q', (named'', keeps', mades)) ↦ inr (
          (x ∷ xs, map'', s''),
          simp (q, q'),
          (named'', λ u found. keeps' u (keeps u found), (keeps' t made, mades)),
        )
      ]
    ]

  IsNamed-erase :
      (name : String) (map : List (ℕ × T)) → IsNamed map → IsNamed (erase_named get_name name map)
  unfolding erase_named
  IsNamed-erase name [] named = tt
  IsNamed-erase name (entry ∷ map) (n, named) =
      elim (Bool-cases (str_eq (get_name (entry.1)) name)) [
        | inl e ↦ rw e named
        | inr e ↦ rw e (n, IsNamed-erase name map named)
      ]

  InMap-erase :
      (t f : ℕ) (map : List (ℕ × T))
      → IsNamed map
      → (t == f) ≡ false
      → InMap t map
      → InMap t (erase_named get_name (name_of f) map)
  unfolding erase_named
  InMap-erase t f [] named ne found = found
  InMap-erase t f ((u, x) ∷ map) (n, named) ne found =
      elim (Bool-cases (str_eq (get_name x) (name_of f))) [
        | inl e ↦
            let same : f ≡ u = n f ((eq_iff (get_name x) (name_of f)).0 e) in
            rw e (InMap-later t u x map (rw same at ne) found)
        | inr e ↦ rw e (elim (Bool-cases (t == u)) [
          | inl q ↦ InMap-head t u x (erase_named get_name (name_of f) map) q
          | inr q ↦
              InMap-tail t u x (erase_named get_name (name_of f) map)
                (InMap-erase t f map named ne (InMap-later t u x map q found))
        ])
      ]

  abbrev pub freed_map : List ℕ → List (ℕ × T) → List (ℕ × T)
  freed_map = free_tensors get_name name_of create calls enable_client

  pub IsNamed-free : (fs : List ℕ) (map : List (ℕ × T)) → IsNamed map → IsNamed (freed_map fs map)
  unfolding free_tensors
  IsNamed-free [] map named = named
  IsNamed-free (f ∷ fs) map named =
      IsNamed-free fs (erase_named get_name (name_of f) map) (IsNamed-erase (name_of f) map named)

  pub InMap-free :
      (t : ℕ) (fs : List ℕ) (map : List (ℕ × T))
      → IsNamed map
      → elem t fs ≡ false
      → InMap t map
      → InMap t (freed_map fs map)
  unfolding free_tensors
  InMap-free t [] map named ne found = found
  InMap-free t (f ∷ fs) map named ne found =
      InMap-free t fs (erase_named get_name (name_of f) map) (IsNamed-erase (name_of f) map named)
        (elem-rest t f fs ne) (InMap-erase t f map named (elem-first t f fs ne) found)
