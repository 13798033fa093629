-- ===== src/Passes/Compile/Marked.antt =====
-- What `HESealBackend::compile` of src/seal/he_seal_backend.cpp comes to for the annotations.
use Prim.Native.String.{String}
use mathlib.Core.Path.{subst}
use mathlib.Core.List.{Memᴰ}
use he_transformer_research.Base.{
  ℕ, ◌≡◌, ◌↔◌, ◌⊎◌, inl, inr, refl, sym, ap, ◌∙◌, Bool, true, false, none, some, List, [], ◌∷◌, map,
  ◌==◌, elem, All, Bool-cases, ==_refl, Result, ok,
}
use he_transformer_research.HeUtil.{ElementType, param_originates_from_name}
use he_transformer_research.Machine.{update}
use he_transformer_research.Configuration.{
  HeOpAnnotations, ConfigTensors, server_plaintext_unpacked_annotation,
}
use he_transformer_research.Passes.Annotations.{GraphNode, Annotations, supported_ops}
use he_transformer_research.Passes.Annotations.Walks.{Reaches, IsOrdered}
use he_transformer_research.Passes.Annotations.Marks.{
  ==→≡, not_in_tail, not_head, update_here, update_other, on, flagged,
}
use he_transformer_research.Passes.Annotations.Reach.{IsMarked, propagate_he_annotations-IsMarked}
use he_transformer_research.Passes.Compile.{
  is_supported, ParameterNode, annotation_for, annotate_parameters, compile,
}

abbrev pub no_annotations : Annotations
no_annotations v = none

abbrev parameter_ids : List ParameterNode → List ℕ
parameter_ids parameters = map (λ p. p.id) parameters

-- No node is there twice.
abbrev pub IsUnique : List ParameterNode → Type 0
IsUnique [] = Unit
IsUnique (p ∷ ps) = (elem p.id (parameter_ids ps) ≡ false) × IsUnique ps

-- The annotation of the first entry from whose name a parameter originates.
pub data IsEntry (p : ParameterNode) : ConfigTensors → HeOpAnnotations → Type 0 where
  found :
      {name : String} {x : HeOpAnnotations} {config : ConfigTensors}
      → param_originates_from_name p.name p.tags name ≡ true
      → IsEntry p ((name, x) ∷ config) x
  later :
      {name : String} {x y : HeOpAnnotations} {config : ConfigTensors}
      → param_originates_from_name p.name p.tags name ≡ false
      → IsEntry p config y
      → IsEntry p ((name, x) ∷ config) y

IsEntry-annotation :
    {p : ParameterNode} {config : ConfigTensors} {x : HeOpAnnotations}
    → IsEntry p config x
    → annotation_for config p ≡ x
unfolding annotation_for
IsEntry-annotation (found e) = rw e refl
IsEntry-annotation (later e there) = rw e (IsEntry-annotation there)

flag-IsEntry :
    (flag : HeOpAnnotations → Bool)
    → flag server_plaintext_unpacked_annotation ≡ false
    → (config : ConfigTensors) (p : ParameterNode) → flag (annotation_for config p) ≡ true
    → (x : HeOpAnnotations) × IsEntry p config x × (flag x ≡ true)
unfolding annotation_for
flag-IsEntry flag unset [] p h = cc
flag-IsEntry flag unset ((name, x) ∷ config) p h =
    elim (Bool-cases (param_originates_from_name p.name p.tags name)) [
      | inl e ↦ (x, found e, rw e at h)
      | inr e ↦
          let (y, there, set) = flag-IsEntry flag unset config p (rw e at h) in
          (y, later e there, set)
    ]

supported_ops-All :
    (is_supported : ℕ → Bool) (nodes : List GraphNode)
    → All (λ n. is_supported n.id ≡ true) nodes
    → supported_ops is_supported nodes ≡ ok tt
unfolding supported_ops
supported_ops-All is_supported [] all = refl
supported_ops-All is_supported (n ∷ nodes) (e, all) =
    simp (e, supported_ops-All is_supported nodes all)

module _ (config : ConfigTensors) where
  other_parameters :
      (ps : List ParameterNode) (a : Annotations) (v : ℕ)
      → elem v (parameter_ids ps) ≡ false
      → annotate_parameters config ps a v ≡ a v
  unfolding annotate_parameters
  other_parameters [] a v h = refl
  other_parameters (p ∷ ps) a v h =
      other_parameters ps (update a p.id (some (annotation_for config p))) v
        (not_in_tail v p.id (parameter_ids ps) h)
      ∙ update_other a p.id v (some (annotation_for config p))
          (not_head v p.id (parameter_ids ps) h)

  annotated :
      (ps : List ParameterNode) (a : Annotations) (p : ParameterNode)
      → IsUnique ps
      → Memᴰ p ps
      → annotate_parameters config ps a p.id ≡ some (annotation_for config p)
  unfolding annotate_parameters
  annotated [] a p unique m = elim m [ ]
  annotated (q ∷ ps) a p (fresh, unique) (Memᴰ.head e) =
      let self : annotate_parameters config (q ∷ ps) a q.id ≡ some (annotation_for config q) =
        other_parameters ps (update a q.id (some (annotation_for config q))) q.id fresh
        ∙ update_here a q.id q.id (some (annotation_for config q)) (==_refl q.id) in
      subst (λ x. annotate_parameters config (q ∷ ps) a x.id ≡ some (annotation_for config x))
        (sym e) self
  annotated (q ∷ ps) a p (fresh, unique) (Memᴰ.tail m) =
      annotated ps (update a q.id (some (annotation_for config q))) p unique m

  module _ (flag : HeOpAnnotations → Bool) where
    -- A node with a flag is a parameter with it, or had it before.
    flag-source :
        (ps : List ParameterNode) (a : Annotations) (v : ℕ)
        → on flag (annotate_parameters config ps a) v ≡ true
        → ((p : ParameterNode) × Memᴰ p ps × (p.id ≡ v) × (flag (annotation_for config p) ≡ true))
          ⊎ (on flag a v ≡ true)
    unfolding annotate_parameters
    flag-source [] a v h = inr h
    flag-source (p ∷ ps) a v h =
        elim (flag-source ps (update a p.id (some (annotation_for config p))) v h) [
          | inl (q, m, same, set) ↦ inl (q, Memᴰ.tail m, same, set)
          | inr before ↦ elim (Bool-cases (v == p.id)) [
            | inl e ↦ inl (
              p,
              Memᴰ.head refl,
              sym (==→≡ v p.id e),
              sym (ap (flagged flag) (update_here a p.id v (some (annotation_for config p)) e))
                  ∙ before,
            )
            | inr e ↦ inr (
                sym (ap (flagged flag) (update_other a p.id v (some (annotation_for config p)) e))
                ∙ before)
          ]
        ]

  -- Nodes that are reached from a parameter whose entry has the flag.
  abbrev pub IsConfigured :
      (HeOpAnnotations → Bool) → List ParameterNode → List GraphNode → ℕ → Type 0
  IsConfigured flag ps nodes v =
      (p : ParameterNode) × (x : HeOpAnnotations) × Memᴰ p ps
      × IsEntry p config x
      × (flag x ≡ true)
      × Reaches nodes p.id v

  IsMarked-IsConfigured :
      (flag : HeOpAnnotations → Bool) (ps : List ParameterNode) (nodes : List GraphNode) (v : ℕ)
      → flag server_plaintext_unpacked_annotation ≡ false
      → IsUnique ps
      → IsMarked flag nodes (annotate_parameters config ps no_annotations) v
        ↔ IsConfigured flag ps nodes v
  IsMarked-IsConfigured flag ps nodes v unset unique = (
    λ (u, h, r). elim (flag-source flag ps no_annotations u h) [
      | inl (p, m, same, set) ↦
          let (x, there, has) = flag-IsEntry flag unset config p set in
          (p, x, m, there, has, subst (λ n. Reaches nodes n v) (sym same) r)
      | inr before ↦ cc
    ],
    λ (p, x, m, there, has, r). (
      p.id,
      ap (flagged flag) (annotated ps no_annotations p unique m)
          ∙ (ap flag (IsEntry-annotation there) ∙ has),
      r,
    ),
  )

module _ (is_op : ℕ → Bool) (description : ℕ → String) (element_type : ℕ → ElementType)
    (config : ConfigTensors) (parameters : List ParameterNode) (nodes : List GraphNode) where
  -- For a function that its passes turn into ordered nodes, all of them supported ops, without a change
  -- to the annotations, and whose parameters are distinct: the compilation succeeds, and a node is
  -- encrypted afterwards just where it is reached from a parameter whose first entry in the
  -- configuration encrypts it, and packed just where it is reached from one whose first entry packs it.
  pub compile-IsConfigured :
      (passes : Annotations → Result (List GraphNode × Annotations))
      → ((a : Annotations) → passes a ≡ ok (nodes, a))
      → IsOrdered nodes
      → All (λ n. is_op n.id ≡ true) nodes
      → All (λ n. is_supported (description n.id) (element_type n.id) ≡ true) nodes
      → IsUnique parameters
      → (a' : Annotations) × (compile passes is_op description element_type config parameters
            no_annotations
          ≡ ok a')
        × ((v : ℕ)
            → (on (λ x. x.encrypted) a' v ≡ true)
              ↔ IsConfigured config (λ x. x.encrypted) parameters nodes v)
        × ((v : ℕ)
            → (on (λ x. x.packed) a' v ≡ true)
              ↔ IsConfigured config (λ x. x.packed) parameters nodes v)
  unfolding compile
  compile-IsConfigured passes keep ordered ops supported unique =
      let a = annotate_parameters config parameters no_annotations in
      let (a', run, encrypted, packed) =
        propagate_he_annotations-IsMarked is_op nodes a ordered ops in
      let all =
        supported_ops-All (λ v. is_supported (description v) (element_type v)) nodes supported in
      let both : (flag : HeOpAnnotations → Bool)
          → flag server_plaintext_unpacked_annotation ≡ false
          → ((v : ℕ) → (on flag a' v ≡ true) ↔ IsMarked flag nodes a v)
          → ((v : ℕ) → (on flag a' v ≡ true) ↔ IsConfigured config flag parameters nodes v) =
        λ flag unset iff v.
          let configured = IsMarked-IsConfigured config flag parameters nodes v unset unique in
          (λ h. configured.0 ((iff v).0 h), λ h. (iff v).1 (configured.1 h)) in
      (
        a',
        simp (keep a, all, run),
        both (λ x. x.encrypted) refl encrypted,
        both (λ x. x.packed) refl packed,
      )
