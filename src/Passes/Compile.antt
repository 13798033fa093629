-- ===== src/Passes/Compile.antt =====
-- `HESealBackend::compile` and `is_supported` of src/seal/he_seal_backend.cpp, with the passes that the
-- constructor of `HESealExecutable` runs after nGraph's and the fusion, which are a parameter. A node
-- is a number; the log is left out.
pub mod Marked
use Prim.Native.String.{String}
use he_transformer_research.Base.{
  ℕ, Bool, true, false, not, ◌&&◌, none, some, List, [], ◌∷◌, if◌then◌else◌, Result, ok, ◌>>=◌,
  ◌>>◌,
}
use he_transformer_research.HeUtil.{ElementType, any_of, param_originates_from_name}
use he_transformer_research.Machine.{update}
use he_transformer_research.Configuration.{
  HeOpAnnotations, ConfigTensors, server_plaintext_unpacked_annotation,
}
use he_transformer_research.Passes.Annotations.{
  GraphNode, Annotations, supported_ops, propagate_he_annotations,
}

-- `m_unsupported_op_name_list`
abbrev unsupported_op_names : List String
unsupported_op_names =
    "Abs" ∷ "Acos" ∷ "All" ∷ "AllReduce" ∷ "And" ∷ "Any" ∷ "ArgMax" ∷ "ArgMin" ∷ "Asin" ∷ "Atan"
    ∷ "AvgPoolBackprop" ∷ "BatchMatMul" ∷ "BatchNormTraining" ∷ "BatchNormTrainingBackprop"
    ∷ "BroadcastDistributed" ∷ "Ceiling" ∷ "Convert" ∷ "ConvolutionBackpropData"
    ∷ "ConvolutionBackpropFilters" ∷ "Cos" ∷ "Cosh" ∷ "Dequantize" ∷ "DynBroadcast" ∷ "DynPad"
    ∷ "DynReshape" ∷ "DynSlice" ∷ "EmbeddingLookup" ∷ "Equal" ∷ "Erf" ∷ "Floor" ∷ "Gather"
    ∷ "GatherND" ∷ "GenerateMask" ∷ "GetOutputElement" ∷ "Greater" ∷ "GreaterEq" ∷ "Less" ∷ "LessEq"
    ∷ "Log" ∷ "LRN" ∷ "Maximum" ∷ "MaxPoolBackprop" ∷ "Min" ∷ "Not" ∷ "NotEqual" ∷ "OneHot" ∷ "Or"
    ∷ "Product" ∷ "Quantize" ∷ "QuantizedAvgPool" ∷ "QuantizedConvolutionBias"
    ∷ "QuantizedConvolutionBiasAdd" ∷ "QuantizedConvolutionBiasSignedAdd"
    ∷ "QuantizedConvolutionRelu" ∷ "QuantizedConvolution" ∷ "QuantizedDot" ∷ "QuantizedDotBias"
    ∷ "QuantizedMaxPool" ∷ "Send" ∷ "Recv" ∷ "Range" ∷ "ReluBackprop" ∷ "ReplaceSlice"
    ∷ "ReverseSequence" ∷ "ScatterAdd" ∷ "ScatterNDAdd" ∷ "Select" ∷ "ShapeOf" ∷ "Sigmoid"
    ∷ "SigmoidBackprop" ∷ "Sign" ∷ "Sin" ∷ "Sinh" ∷ "Sqrt" ∷ "StopGradient" ∷ "Tan" ∷ "Tanh"
    ∷ "Tile" ∷ "TopK" ∷ "Transpose" ∷ []

-- `m_supported_types`
abbrev is_supported_type : ElementType → Bool
is_supported_type ElementType.f32 = true
is_supported_type ElementType.f64 = true
is_supported_type ElementType.i32 = true
is_supported_type ElementType.i64 = true
is_supported_type _ = false

-- By the description and the element type of the node.
unfoldable pub is_supported : String → ElementType → Bool
is_supported description element_type =
    not (any_of description unsupported_op_names) && is_supported_type element_type

-- A parameter of the function, with its provenance tags.
pub record ParameterNode : Type 0 where
  pub id : ℕ
  pub name : String
  pub tags : List String

-- The first entry, in the order of the map, from whose name the parameter originates.
pub annotation_for : ConfigTensors → ParameterNode → HeOpAnnotations
annotation_for [] p = server_plaintext_unpacked_annotation
annotation_for (entry ∷ config) p =
    let rest = annotation_for config p in
    if param_originates_from_name p.name p.tags (entry.0) then entry.1 else rest

unfoldable pub annotate_parameters : ConfigTensors → List ParameterNode → Annotations → Annotations
unfolding annotation_for
annotate_parameters config [] a = a
annotate_parameters config (p ∷ ps) a =
    annotate_parameters config ps (update a p.id (some (annotation_for config p)))

-- `passes` are those of nGraph and the fusion, on the annotations that there are; `is_op`,
-- `description` and `element_type` are those of a node.
unfoldable pub compile :
    (Annotations → Result (List GraphNode × Annotations))
    → (ℕ → Bool)
    → (ℕ → String)
    → (ℕ → ElementType)
    → ConfigTensors
    → List ParameterNode
    → Annotations
    → Result Annotations
unfolding is_supported annotate_parameters
compile passes is_op description element_type config parameters a = do
  function ← passes (annotate_parameters config parameters a)
  supported_ops (λ v. is_supported (description v) (element_type v)) (function.0)
  propagate_he_annotations is_op (function.0) (function.1)
