-- ===== src/Passes/Annotations.antt =====
-- `PropagateHEAnnotations` of src/pass/propagate_he_annotations.cpp, and `SupportedOps` of
-- src/pass/supported_ops.cpp. A node is a number; its annotation, if it has one, is its own, and is
-- held in a store. The logging is left out.
pub mod Walks
pub mod Marks
pub mod Reach
use he_transformer_research.Base.{
  ℕ, Bool, true, false, not, ◌||◌, Option, none, some, List, [], ◌∷◌, ◌==◌, if◌then◌else◌, Result,
  ok, err, check_failed, ◌>>=◌, ◌>>◌, require,
}
use he_transformer_research.Machine.{update}
use he_transformer_research.Configuration.{HeOpAnnotations, server_plaintext_unpacked_annotation}

-- `targets` are the nodes of the target inputs of its outputs, in order.
pub record GraphNode : Type 0 where
  pub id : ℕ
  pub targets : List ℕ

abbrev pub Annotations : Type 0
Annotations = ℕ → Option HeOpAnnotations

abbrev pub has_he_annotation : Annotations → ℕ → Bool
has_he_annotation a v = elim (a v) [ none ↦ false | some x ↦ true ]

abbrev pub he_op_annotation : Annotations → ℕ → Result HeOpAnnotations
he_op_annotation a v = elim (a v) [ none ↦ err check_failed | some x ↦ ok x ]

-- What the annotation of a node does to that of a target.
abbrev pub merge : HeOpAnnotations → HeOpAnnotations → HeOpAnnotations
merge source target = record target {
  encrypted = source.encrypted || target.encrypted;
  packed = source.packed || target.packed;
}

-- `NGRAPH_CHECK(is_supported(*op), …)` for each node.
unfoldable pub supported_ops : (ℕ → Bool) → List GraphNode → Result (Unit {0})
supported_ops is_supported [] = ok tt
supported_ops is_supported (n ∷ nodes) = do
  require (is_supported n.id) check_failed
  supported_ops is_supported nodes

-- `is_op` tells whether a node is an `op::Op`.
module _ (is_op : ℕ → Bool) where
  -- The first loop: an op without an annotation gets that of a plaintext.
  unfoldable pub annotate : List GraphNode → Annotations → Annotations
  annotate [] a = a
  annotate (n ∷ nodes) a =
      let missing = if has_he_annotation a n.id then false else is_op n.id in
      let a' = if missing then update a n.id (some server_plaintext_unpacked_annotation) else a in
      annotate nodes a'

  unfoldable pub update_targets : HeOpAnnotations → List ℕ → Annotations → Result Annotations
  update_targets source [] a = ok a
  update_targets source (t ∷ targets) a = do
    require (is_op t) check_failed
    target ← he_op_annotation a t
    update_targets source targets (update a t (some (merge source target)))

  -- The second loop; a node that is no op is passed over.
  unfoldable pub propagate : List GraphNode → Annotations → Result Annotations
  unfolding update_targets
  propagate [] a = ok a
  propagate (n ∷ nodes) a = do
    let updated = do source ← he_op_annotation a n.id; update_targets source n.targets a
    a' ← if is_op n.id then updated else ok a
    propagate nodes a'

  unfoldable pub propagate_he_annotations : List GraphNode → Annotations → Result Annotations
  unfolding annotate propagate
  propagate_he_annotations nodes a = propagate nodes (annotate nodes a)
