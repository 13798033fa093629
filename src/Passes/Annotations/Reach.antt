-- ===== src/Passes/Annotations/Reach.antt =====
-- What the propagation of annotations of src/pass/propagate_he_annotations.cpp comes to: a flag is set
-- where a node is reached from one that has it.
use he_transformer_research.Base.{
  ℕ, ◌≡◌, ◌↔◌, inl, inr, refl, sym, ap, ◌∙◌, Bool, true, false, ◌||◌, ◌&&◌, some, List, [], ◌∷◌,
  ◌==◌, elem, All, All-elem, All-weaken, Option-cases, if◌then◌else◌, Bool-cases, ==_refl, ok,
}
use he_transformer_research.Machine.{update}
use he_transformer_research.Configuration.{HeOpAnnotations, server_plaintext_unpacked_annotation}
use he_transformer_research.Passes.Annotations.{
  GraphNode, Annotations, has_he_annotation, merge, annotate, propagate, propagate_he_annotations,
}
use he_transformer_research.Passes.Annotations.Walks.{
  ids, first, later, Reaches, here, step, IsOrdered, Edge-source, Reaches-weaken, Reaches-later,
  nodes-All,
}
use he_transformer_research.Passes.Annotations.Marks.{
  ==→≢, ==→≡, or_cases, or_left, or_right, update_here, has-update, annotation_of, is_some,
  if-either, not_missing, flagged, on, on-annotate, targets-updated,
}

module _ (flag : HeOpAnnotations → Bool) where
  -- Nodes that are reached from marked ones.
  abbrev pub IsMarked : List GraphNode → Annotations → ℕ → Type 0
  IsMarked nodes a v = (u : ℕ) × (on flag a u ≡ true) × Reaches nodes u v

  module _ (n : GraphNode) (nodes : List GraphNode) (a a1 : Annotations)
      (targets : All (λ t. elem t (ids nodes) ≡ true) n.targets)
      (fresh : elem n.id (ids nodes) ≡ false) (ordered : IsOrdered nodes)
      (marks : (v : ℕ) → on flag a1 v ≡ (on flag a v || (elem v n.targets && on flag a n.id))) where
    IsMarked-before : (v : ℕ) → IsMarked nodes a1 v → IsMarked (n ∷ nodes) a v
    IsMarked-before v (u, h, r) =
        elim (or_cases (on flag a u) (elem u n.targets) (on flag a n.id) (sym (marks u) ∙ h)) [
          | inl q ↦ (u, q, Reaches-weaken r)
          | inr (t, q) ↦ (n.id, q, step (first refl t) (Reaches-weaken r))
        ]

    marked_self : (u : ℕ) → on flag a u ≡ true → on flag a1 u ≡ true
    marked_self u h = marks u ∙ or_left (on flag a u) (elem u n.targets && on flag a n.id) h

    first-IsMarked :
        (u v : ℕ) → n.id ≡ u → on flag a u ≡ true → Reaches (n ∷ nodes) u v → IsMarked nodes a1 v
    first-IsMarked u v e h here = (u, marked_self u h, here)
    first-IsMarked u v e h (step {w = w} (first q t) r) =
        let later_node = All-elem (λ x. elem x (ids nodes) ≡ true) n.targets w targets t in
        let is_marked =
          marks w
          ∙ or_right (on flag a w) (elem w n.targets) (on flag a n.id) t (ap (on flag a) e ∙ h) in
        (w, is_marked, Reaches-later ordered fresh (λ same. cc) r)
    first-IsMarked u v e h (step (later q) r) = let there = Edge-source nodes q in cc

    IsMarked-after : (v : ℕ) → IsMarked (n ∷ nodes) a v → IsMarked nodes a1 v
    IsMarked-after v (u, h, r) = elim (Bool-cases (n.id == u)) [
      | inl e ↦ first-IsMarked u v (==→≡ n.id u e) h r
      | inr e ↦ (u, marked_self u h, Reaches-later ordered fresh (==→≢ n.id u e) r)
    ]

  marked-last : (a : Annotations) (v : ℕ) → IsMarked [] a v → on flag a v ≡ true
  marked-last a v (u, h, here) = h
  marked-last a v (u, h, step e r) = elim e [ ]

  module _ (merges : (s t : HeOpAnnotations) → flag (merge s t) ≡ (flag s || flag t)) where
    -- The nodes that a run of the second loop marks are those that are reached from marked ones.
    propagate-IsMarked :
        (is_op : ℕ → Bool) (nodes : List GraphNode) (a : Annotations)
        → IsOrdered nodes
        → All (λ n. is_op n.id ≡ true) nodes
        → All (λ n. has_he_annotation a n.id ≡ true) nodes
        → (a' : Annotations) × (propagate is_op nodes a ≡ ok a')
          × ((v : ℕ) → (on flag a' v ≡ true) ↔ IsMarked nodes a v)
    unfolding propagate
    propagate-IsMarked is_op [] a ordered ops have =
        (a, refl, λ v. (λ h. (v, h, here), marked-last a v))
    propagate-IsMarked is_op (n ∷ nodes) a (targets, fresh, ordered) (op, ops) (has, have) =
        elim (Option-cases (a n.id)) [
          | inl e ↦ cc
          | inr (source, e) ↦
              let (a1, run, marks, keeps, same) =
                targets-updated flag merges is_op source n.targets a
                  (nodes-All (λ t. is_op t ≡ true) nodes n.targets ops targets)
                  (nodes-All (λ t. has_he_annotation a t ≡ true) nodes n.targets have targets) in
              let (a', run', iff) =
                propagate-IsMarked is_op nodes a1 ordered ops
                  (All-weaken (λ m h. keeps m.id h) nodes have) in
              let marks' : (v : ℕ)
                  → on flag a1 v ≡ (on flag a v || (elem v n.targets && on flag a n.id)) =
                λ v.
                  marks v ∙ ap (λ o. on flag a v || (elem v n.targets && flagged flag o)) (sym e) in
              (
                a',
                simp (op, annotation_of a n.id source e, run, run'),
                λ v. (
                  λ h. IsMarked-before n nodes a a1 targets fresh ordered marks' v ((iff v).0 h),
                  λ h. (iff v).1 (IsMarked-after n nodes a a1 targets fresh ordered marks' v h),
                ),
              )
        ]

module _ (is_op : ℕ → Bool) where
  annotate-keeps :
      (nodes : List GraphNode) (a : Annotations) (v : ℕ)
      → has_he_annotation a v ≡ true
      → has_he_annotation (annotate is_op nodes a) v ≡ true
  unfolding annotate
  annotate-keeps [] a v h = h
  annotate-keeps (n ∷ nodes) a v h =
      let a1 = update a n.id (some server_plaintext_unpacked_annotation) in
      let missing = if has_he_annotation a n.id then false else is_op n.id in
      annotate-keeps nodes (if missing then a1 else a) v (
        if-either missing a1 a v (has-update a n.id v server_plaintext_unpacked_annotation h)
          (λ e. h))

  annotate-has :
      (nodes : List GraphNode) (a : Annotations)
      → All (λ n. is_op n.id ≡ true) nodes
      → All (λ n. has_he_annotation (annotate is_op nodes a) n.id ≡ true) nodes
  unfolding annotate
  annotate-has [] a ops = tt
  annotate-has (n ∷ nodes) a (op, ops) =
      let a1 = update a n.id (some server_plaintext_unpacked_annotation) in
      let missing = if has_he_annotation a n.id then false else is_op n.id in
      let now : has_he_annotation (if missing then a1 else a) n.id ≡ true =
        if-either missing a1 a n.id
          (ap is_some
            (update_here a n.id n.id (some server_plaintext_unpacked_annotation) (==_refl n.id)))
          (not_missing (has_he_annotation a n.id) (is_op n.id) op) in
      (
        annotate-keeps nodes (if missing then a1 else a) n.id now,
        annotate-has nodes (if missing then a1 else a) ops,
      )

  module _ (nodes : List GraphNode) (a : Annotations) (ordered : IsOrdered nodes)
      (ops : All (λ n. is_op n.id ≡ true) nodes) where
    flag-IsMarked :
        (flag : HeOpAnnotations → Bool)
        → ((s t : HeOpAnnotations) → flag (merge s t) ≡ (flag s || flag t))
        → flag server_plaintext_unpacked_annotation ≡ false
        → (a' : Annotations) × (propagate_he_annotations is_op nodes a ≡ ok a')
          × ((v : ℕ) → (on flag a' v ≡ true) ↔ IsMarked flag nodes a v)
    unfolding propagate_he_annotations
    flag-IsMarked flag merges unset =
        let (a', run, iff) =
          propagate-IsMarked flag merges is_op nodes (annotate is_op nodes a) ordered ops
            (annotate-has nodes a ops) in
        let same = on-annotate flag is_op unset nodes a in
        (
          a',
          run,
          λ v. (
            λ h. let (u, p, r) = (iff v).0 h in (u, sym (same u) ∙ p, r),
            λ h. (iff v).1 (h.0, same (h.0) ∙ h.1, h.2),
          ),
        )

    -- For nodes that are all ops, in an order in which each is there once and before its targets, the
    -- pass succeeds, and a node is encrypted afterwards just where it is reached from a node that was
    -- encrypted before, and packed just where it is reached from one that was packed.
    pub propagate_he_annotations-IsMarked :
        (a' : Annotations) × (propagate_he_annotations is_op nodes a ≡ ok a')
        × ((v : ℕ) → (on (λ x. x.encrypted) a' v ≡ true) ↔ IsMarked (λ x. x.encrypted) nodes a v)
        × ((v : ℕ) → (on (λ x. x.packed) a' v ≡ true) ↔ IsMarked (λ x. x.packed) nodes a v)
    propagate_he_annotations-IsMarked =
        let (a', run, encrypted) = flag-IsMarked (λ x. x.encrypted) (λ s t. refl) refl in
        let (b', run', packed) = flag-IsMarked (λ x. x.packed) (λ s t. refl) refl in
        let same : b' ≡ a' = cc in (a', run, encrypted, rw same at packed)
