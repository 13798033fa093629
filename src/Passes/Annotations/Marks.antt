-- ===== src/Passes/Annotations/Marks.antt =====
-- What one step of the propagation of annotations does to a flag, in
-- src/pass/propagate_he_annotations.cpp.
use he_transformer_research.Base.{
  ℕ, ◌≡◌, ◌≢◌, ◌⊎◌, inl, inr, refl, sym, ap, ◌∙◌, Bool, true, false, ◌||◌, ◌&&◌, Option, none, some,
  List, [], ◌∷◌, ◌==◌, elem, All, All-weaken, Option-cases, if◌then◌else◌, Bool-cases, ok, err,
  check_failed, arith,
}
use he_transformer_research.Machine.{update}
use he_transformer_research.Configuration.{HeOpAnnotations, server_plaintext_unpacked_annotation}
use he_transformer_research.Passes.Annotations.{
  GraphNode, Annotations, has_he_annotation, he_op_annotation, merge, annotate, update_targets,
}

pub ==→≢ : (a b : ℕ) → (a == b) ≡ false → a ≢ b
==→≢ a b h = ground arith

pub not_in_tail : (v t : ℕ) (xs : List ℕ) → elem v (t ∷ xs) ≡ false → elem v xs ≡ false
not_in_tail v t xs h = ground arith

pub not_head : (v t : ℕ) (xs : List ℕ) → elem v (t ∷ xs) ≡ false → (v == t) ≡ false
not_head v t xs h = ground arith

pub update_here :
    (a : Annotations) (k v : ℕ) (x : Option HeOpAnnotations) → (v == k) ≡ true → update a k x v ≡ x
update_here a k v x e = simp e

pub update_other :
    (a : Annotations) (k v : ℕ) (x : Option HeOpAnnotations)
    → (v == k) ≡ false
    → update a k x v ≡ a v
update_other a k v x e = simp e

abbrev pub is_some : Option HeOpAnnotations → Bool
is_some o = elim o [ none ↦ false | some x ↦ true ]

pub has-update :
    (a : Annotations) (k v : ℕ) (x : HeOpAnnotations)
    → has_he_annotation a v ≡ true
    → has_he_annotation (update a k (some x)) v ≡ true
has-update a k v x h = elim (Bool-cases (v == k)) [
  | inl e ↦ ap is_some (update_here a k v (some x) e)
  | inr e ↦ ap is_some (update_other a k v (some x) e) ∙ h
]

pub if-either :
    (b : Bool) (a a' : Annotations) (v : ℕ)
    → has_he_annotation a v ≡ true
    → (b ≡ false → has_he_annotation a' v ≡ true)
    → has_he_annotation (if b then a else a') v ≡ true
if-either true a a' v h h' = h
if-either false a a' v h h' = h' refl

pub not_missing : (has op : Bool) → op ≡ true → (if has then false else op) ≡ false → has ≡ true
not_missing true op h e = refl
not_missing false op h e = cc

pub annotation_of :
    (a : Annotations) (v : ℕ) (x : HeOpAnnotations) → a v ≡ some x → he_op_annotation a v ≡ ok x
annotation_of a v x e = ap (λ o. elim o [ none ↦ err check_failed | some x ↦ ok x ]) e

pub ==→≡ : (a b : ℕ) → (a == b) ≡ true → a ≡ b
==→≡ a b h = ground arith

pub or_cases : (o e s : Bool) → (o || (e && s)) ≡ true → (o ≡ true) ⊎ ((e ≡ true) × (s ≡ true))
or_cases true e s h = inl refl
or_cases false true s h = inr (refl, h)
or_cases false false s h = cc

pub or_left : (a b : Bool) → a ≡ true → (a || b) ≡ true
or_left true b h = refl
or_left false b h = cc

pub or_right : (o e s : Bool) → e ≡ true → s ≡ true → (o || (e && s)) ≡ true
or_right true e s h q = refl
or_right false true s h q = q
or_right false false s h q = cc

or_comm : (a b : Bool) → (a || b) ≡ (b || a)
or_comm true true = refl
or_comm true false = refl
or_comm false true = refl
or_comm false false = refl

or_false : (a : Bool) → (a || false) ≡ a
or_false true = refl
or_false false = refl

-- What remains to be marked after the first target.
or_step : (o e m s : Bool) → ((o || (e && s)) || (m && s)) ≡ (o || ((e || m) && s))
or_step true e m s = refl
or_step false true m true = refl
or_step false true true false = refl
or_step false true false false = refl
or_step false false m s = refl

module _ (flag : HeOpAnnotations → Bool) where
  abbrev pub flagged : Option HeOpAnnotations → Bool
  flagged o = elim o [ none ↦ false | some x ↦ flag x ]

  abbrev pub on : Annotations → ℕ → Bool
  on a v = flagged (a v)

  module _ (is_op : ℕ → Bool) (unset : flag server_plaintext_unpacked_annotation ≡ false) where
    pub on-annotate :
        (nodes : List GraphNode) (a : Annotations) (v : ℕ) → on (annotate is_op nodes a) v ≡ on a v
    unfolding annotate
    on-annotate [] a v = refl
    on-annotate (n ∷ nodes) a v =
        let missing = if has_he_annotation a n.id then false else is_op n.id in
        let a' = if missing then update a n.id (some server_plaintext_unpacked_annotation) else a in
        let same : on a' v ≡ on a v = ground arith in on-annotate nodes a' v ∙ same

  module _ (merges : (s t : HeOpAnnotations) → flag (merge s t) ≡ (flag s || flag t)) where
    on-merge :
        (a : Annotations) (k : ℕ) (source x : HeOpAnnotations) (v : ℕ)
        → a k ≡ some x
        → on (update a k (some (merge source x))) v ≡ (on a v || ((v == k) && flag source))
    on-merge a k source x v e = elim (Bool-cases (v == k)) [
      | inl q ↦
          let there : a v ≡ some x = ap a (==→≡ v k q) ∙ e in
          ap flagged (update_here a k v (some (merge source x)) q)
          ∙ merges source x
          ∙ or_comm (flag source) (flag x)
          ∙ (rw (q, there) refl)
      | inr q ↦
          ap flagged (update_other a k v (some (merge source x)) q)
          ∙ sym (or_false (on a v))
          ∙ (rw q refl)
    ]

    pub targets-updated :
        (is_op : ℕ → Bool) (source : HeOpAnnotations) (targets : List ℕ) (a : Annotations)
        → All (λ t. is_op t ≡ true) targets
        → All (λ t. has_he_annotation a t ≡ true) targets
        → (a' : Annotations) × (update_targets is_op source targets a ≡ ok a')
          × ((v : ℕ) → on a' v ≡ (on a v || (elem v targets && flag source)))
          × ((v : ℕ) → has_he_annotation a v ≡ true → has_he_annotation a' v ≡ true)
          × ((v : ℕ) → elem v targets ≡ false → a' v ≡ a v)
    unfolding update_targets
    targets-updated is_op source [] a ops have = (a, refl, λ v. ground arith, λ v h. h, λ v h. refl)
    targets-updated is_op source (t ∷ targets) a (op, ops) (has, have) = elim (Option-cases (a t)) [
      | inl e ↦ cc
      | inr (x, e) ↦
          let a1 = update a t (some (merge source x)) in
          let kept : (v : ℕ) → has_he_annotation a v ≡ true → has_he_annotation a1 v ≡ true =
            λ v h. has-update a t v (merge source x) h in
          let (a', run, marks, keeps, same) =
            targets-updated is_op source targets a1 ops (All-weaken kept targets have) in
          (
            a',
            simp (op, annotation_of a t x e, run),
            λ v.
                marks v
                ∙ ap (λ b. b || (elem v targets && flag source)) (on-merge a t source x v e)
                ∙ or_step (on a v) (v == t) (elem v targets) (flag source),
            λ v h. keeps v (kept v h),
            λ v h.
                same v (not_in_tail v t targets h)
                ∙ update_other a t v (some (merge source x)) (not_head v t targets h),
          )
    ]
