-- ===== src/Executor/Create/Errors.antt =====
-- Where an exception of the loop over the operations of src/seal/he_seal_executable.cpp comes from, with the
-- tensors of outputs that it creates.
use Prim.Native.String.{String}
use he_transformer_research.Base.{
  refl, false, ◌&&◌, ◌⊎◌, inl, inr, [], ◌∷◌, check_failed, arith, ℕ, ◌≡◌, sym, ap, ◌∙◌, Bool, true,
  List, All, Result, ok, err, Error,
}
use he_transformer_research.Backend.{Backend}
use he_transformer_research.HeUtil.{ElementType}
use he_transformer_research.Machine.{Mem}
use he_transformer_research.Tensor.{Ngraph, Tensor}
use he_transformer_research.Passes.Annotations.{Annotations, has_he_annotation}
use he_transformer_research.Passes.Liveness.{he_liveness}
use he_transformer_research.Passes.Liveness.Exact.{IsSeparate}
use he_transformer_research.Executor.Loop.{ExecNode, run_ops}
use he_transformer_research.Executor.Loop.Wanted.{is_wanted, IsScheduled, live_nodes, schedule}
use he_transformer_research.Executor.Loop.Found.{InMap, IsNamed}
use he_transformer_research.Executor.Loop.Complete.{run_ops-caused}
use he_transformer_research.Executor.Create.{create_output, create_output-Returns}

-- What a descriptor's tensor is an output of, and its element type, shape and name.
pub record OutputInfo : Type 0 where
  pub node : ℕ
  pub element_type : ElementType
  pub shape : List ℕ
  pub name : String

abbrev pub all_ops : List ExecNode → Bool
all_ops [] = true
all_ops (n ∷ nodes) = n.is_op && all_ops nodes

some_no_op :
    (Q : Type 0) (nodes : List ExecNode)
    → (all_ops nodes ≡ false → Q)
    → All (λ n. n.is_op ≡ false → Q) nodes
some_no_op Q [] f = tt
some_no_op Q (n ∷ nodes) f = (λ o. f (ground arith), some_no_op Q nodes (λ h. f (ground arith)))

module _ (B : Backend) (ng : Ngraph) (complex_packing enable_client : Bool) (batch_size : ℕ)
    (a : Annotations) (output : ℕ → OutputInfo) where
  open B use {D, Ct}

  abbrev pub create_of : ℕ → Mem D Ct → Result (Tensor D × Mem D Ct)
  create_of t =
      let o = output t in
      create_output B ng complex_packing a o.node batch_size o.element_type o.shape o.name

  create_of-Returns :
      (t : ℕ) (m : Mem D Ct)
      → has_he_annotation a (output t).node ≡ true
      → (r : Tensor D × Mem D Ct) × (create_of t m ≡ ok r) × ((r.0).name ≡ (output t).name)
  create_of-Returns t m has =
      let o = output t in
      create_output-Returns B ng complex_packing a o.node batch_size o.element_type o.shape o.name
        has m

  module _ (calls : ExecNode → List (Tensor D) → List (Tensor D) → Mem D Ct → Result (Mem D Ct))
      (P : Error → Type 0) where
    abbrev pub name_of : ℕ → String
    name_of t = (output t).name

    -- An exception that leaves the loop over operations in order, with the lists of the liveness pass,
    -- was thrown by an operation, or is the failed check of a node that is no op: no tensor is missing
    -- in the map, and every output that is not there is created. Every output's operation has an
    -- annotation, a name belongs to one tensor, and the map has at first the tensors of the parameters
    -- and those that are read but not made.
    pub run_ops-called :
        ((n : ExecNode) (xs ys : List (Tensor D)) (m : Mem D Ct) (e : Error)
          → calls n xs ys m ≡ err e
          → P e)
        → ((t : ℕ) → has_he_annotation a (output t).node ≡ true)
        → ((t u : ℕ) → name_of t ≡ name_of u → t ≡ u)
        → (persistent : List ℕ) (nodes : List ExecNode) → IsScheduled nodes
        → All IsSeparate (live_nodes nodes)
        → (map : List (ℕ × Tensor D)) (m : Mem D Ct) (c : List (Tensor D))
        → IsNamed (λ x. x.name) name_of create_of calls enable_client map
        → ((t : ℕ) → is_wanted t nodes ≡ true → InMap t map)
        → (e : Error)
        → run_ops
            (λ x. x.name)
            name_of
            create_of
            calls
            enable_client
            (schedule nodes (he_liveness persistent (live_nodes nodes)).0)
            map
            m
            c
          ≡ err e
        → P e ⊎ ((e ≡ check_failed) × (all_ops nodes ≡ false))
    run_ops-called call_errors annotated distinct persistent nodes =
        run_ops-caused (λ x. x.name) name_of create_of calls enable_client
          (λ e. P e ⊎ ((e ≡ check_failed) × (all_ops nodes ≡ false)))
          (λ t m e h.
            let (r, made, name) = create_of-Returns t m (annotated t) in
            let both : err e ≡ ok r = sym h ∙ made in cc)
          (λ t m r h u same.
            let (r', made, name) = create_of-Returns t m (annotated t) in
            let both : r ≡ r' = cc in distinct u t (sym same ∙ (ap (λ x. (x.0).name) both ∙ name)))
          (λ n xs ys m e h. inl (call_errors n xs ys m e h)) persistent nodes
          (some_no_op _ nodes (λ h. inr (refl, h)))
