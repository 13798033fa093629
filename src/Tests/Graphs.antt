-- ===== src/Tests/Graphs.antt =====
-- The theorems on the passes, on the compilation and on the loop over the operations at concrete
-- inputs.
use Prim.Native.String.{String, count, [] as no_text, ◌∷◌ as push}
use text.Mathlib.TextLemmas.{length-nil, length-cons}
use he_transformer_research.Base.{
  ℕ, zero, suc, ◌≡◌, ◌↔◌, refl, ap, true, false, ◌⊎◌, none, some, List, [], ◌∷◌, All, ◌==◌, ◌∙◌,
  sym, if◌then◌else◌, Result, ok, err, Error, check_failed, arith,
}
use he_transformer_research.HeUtil.{ElementType, PbElementType}
use he_transformer_research.Machine.{Mem}
use he_transformer_research.Tensor.{Tensor}
use he_transformer_research.Tensor.Io.{new_tensor}
use he_transformer_research.Tensor.Load.Plain.{loaded_tensor}
use he_transformer_research.Configuration.{ConfigTensors, server_plaintext_unpacked_annotation}
use he_transformer_research.Passes.Compile.{is_supported, ParameterNode, compile}
use he_transformer_research.Passes.Compile.Marked.{
  no_annotations, IsConfigured, compile-IsConfigured,
}
use he_transformer_research.Executor.Create.{create_output, create_plain_tensor}
use he_transformer_research.Executor.Create.Errors.{OutputInfo, all_ops, create_of, run_ops-called}
use he_transformer_research.Tests.Toy.{toy, ToyCt}
use he_transformer_research.Tests.World.{world, empty_store}
use he_transformer_research.Passes.Annotations.{GraphNode, Annotations, propagate_he_annotations}
use he_transformer_research.Passes.Annotations.Marks.{on}
use he_transformer_research.Passes.Annotations.Reach.{IsMarked, propagate_he_annotations-IsMarked}
use he_transformer_research.Passes.Liveness.{
  LiveNode, he_liveness, live_step, free_loop, new_loop, declared, without,
}
use he_transformer_research.Passes.Liveness.Exact.{IsSeparate, IsExact, he_liveness-IsExact}
use he_transformer_research.Executor.Loop.{
  ExecNode, run_ops, run_op, inputs_at, output_at, outputs_at, find_tensor, insert_tensor,
  free_tensors, erase_named,
}
use he_transformer_research.Executor.Loop.Wanted.{schedule, live_nodes, is_wanted, IsScheduled}
use he_transformer_research.Executor.Loop.Found.{InMap}

abbrev chain : List GraphNode
chain =
    record { id = 0; targets = 1 ∷ [] }
    ∷ record { id = 1; targets = 2 ∷ [] }
    ∷ record { id = 2; targets = [] }
    ∷ []

-- The first node is encrypted, and the others have no annotation.
abbrev first_encrypted : Annotations
first_encrypted v =
    if v == 0 then some (record { from_client = true; encrypted = true; packed = false }) else none

propagate_he_annotations_example :
    (a' : Annotations) × (propagate_he_annotations (λ v. true) chain first_encrypted ≡ ok a')
    × ((v : ℕ)
        → (on (λ x. x.encrypted) a' v ≡ true) ↔ IsMarked (λ x. x.encrypted) chain first_encrypted v)
    × ((v : ℕ)
        → (on (λ x. x.packed) a' v ≡ true) ↔ IsMarked (λ x. x.packed) chain first_encrypted v)
propagate_he_annotations_example =
    propagate_he_annotations-IsMarked (λ v. true) chain first_encrypted
      ((refl, tt), refl, ((refl, tt), refl, (tt, refl, tt))) (refl, (refl, (refl, tt)))

-- A parameter, and an operation that reads it and makes the output.
abbrev parameter_node : LiveNode
parameter_node = record { inputs = []; outputs = 0 ∷ [] }

abbrev output_node : LiveNode
output_node = record { inputs = 0 ∷ []; outputs = 1 ∷ [] }

graph-IsSeparate : All IsSeparate (parameter_node ∷ output_node ∷ [])
graph-IsSeparate = ((λ t h. ground arith), ((λ t h. ground arith), tt))

he_liveness_example :
    IsExact
      (1 ∷ [])
      (parameter_node ∷ output_node ∷ [])
      (he_liveness (1 ∷ []) (parameter_node ∷ output_node ∷ [])).0
he_liveness_example =
    he_liveness-IsExact (1 ∷ []) (parameter_node ∷ output_node ∷ []) graph-IsSeparate

abbrev graph : List ExecNode
graph =
    record { tensors = parameter_node; is_op = true; is_parameter = true; is_output = false }
    ∷ record { tensors = output_node; is_op = true; is_parameter = false; is_output = true }
    ∷ []

-- A name of so many ticks.
abbrev ticks : ℕ → String
ticks zero = no_text
ticks (suc n) = push "a" (ticks n)

count-ticks : (n : ℕ) → count (ticks n) ≡ n
count-ticks zero = length-nil
count-ticks (suc n) = length-cons "a" (ticks n) ∙ ap suc (count-ticks n)

ticks-distinct : (t u : ℕ) → ticks t ≡ ticks u → t ≡ u
ticks-distinct t u h = sym (count-ticks t) ∙ (ap count h ∙ count-ticks u)

abbrev plaintexts : Annotations
plaintexts v = some server_plaintext_unpacked_annotation

abbrev output : ℕ → OutputInfo
output t = record { node = t; element_type = ElementType.f64; shape = 2 ∷ []; name = ticks t }

abbrev calls : ExecNode → List (Tensor ℕ) → List (Tensor ℕ) → Mem ℕ ToyCt → Result (Mem ℕ ToyCt)
calls n args outs m = err check_failed

abbrev IsCheck : Error → Type 0
IsCheck e = e ≡ check_failed

call_errors :
    (n : ExecNode) (xs ys : List (Tensor ℕ)) (m : Mem ℕ ToyCt) (e : Error)
    → calls n xs ys m ≡ err e
    → IsCheck e
call_errors n xs ys m e h = cc

abbrev given : Tensor ℕ
given = loaded_tensor toy world.ngraph (ticks 0) PbElementType.f64 (2 ∷ []) false (5 ∷ 6 ∷ [])

abbrev start : List (ℕ × Tensor ℕ)
start = (0, given) ∷ []

wanted_zero : (t : ℕ) → is_wanted t graph ≡ true → t ≡ 0
wanted_zero t w = ground arith

wanted_graph : (t : ℕ) → is_wanted t graph ≡ true → InMap t start
unfolding find_tensor
wanted_graph t w = (given, rw (wanted_zero t w) refl)

graph-IsScheduled : IsScheduled graph
graph-IsScheduled = ((λ t h. refl), ((λ t h. refl), tt))

thrown :
    run_ops
      (λ x. x.name)
      ticks
      (create_of toy world.ngraph true true 1 plaintexts output)
      calls
      true
      (schedule graph (he_liveness (1 ∷ []) (live_nodes graph)).0)
      start
      empty_store
      []
    ≡ err check_failed
unfolding run_ops run_op inputs_at output_at outputs_at find_tensor insert_tensor free_tensors
    erase_named he_liveness live_step free_loop new_loop declared without create_output
    create_plain_tensor new_tensor
thrown = refl

run_ops-called_example :
    IsCheck check_failed ⊎ ((check_failed ≡ check_failed) × (all_ops graph ≡ false))
run_ops-called_example =
    run_ops-called toy world.ngraph true true 1 plaintexts output calls IsCheck call_errors
      (λ t. refl) ticks-distinct (1 ∷ []) graph graph-IsScheduled graph-IsSeparate start empty_store
      [] ((λ u h. sym (ticks-distinct 0 u h)), tt) wanted_graph check_failed thrown

-- The configuration encrypts the one parameter.
abbrev config : ConfigTensors
config = ("x", record { from_client = true; encrypted = true; packed = false }) ∷ []

abbrev x_parameter : ParameterNode
x_parameter = record { id = 0; name = "x"; tags = [] }

compile-IsConfigured_example :
    (a' : Annotations) × (compile
        (λ a. ok (chain, a))
        (λ v. true)
        (λ v. "Add")
        (λ v. ElementType.f32)
        config
        (x_parameter ∷ [])
        no_annotations
      ≡ ok a')
    × ((v : ℕ)
        → (on (λ x. x.encrypted) a' v ≡ true)
          ↔ IsConfigured config (λ x. x.encrypted) (x_parameter ∷ []) chain v)
    × ((v : ℕ)
        → (on (λ x. x.packed) a' v ≡ true)
          ↔ IsConfigured config (λ x. x.packed) (x_parameter ∷ []) chain v)
unfolding is_supported
compile-IsConfigured_example =
    compile-IsConfigured (λ v. true) (λ v. "Add") (λ v. ElementType.f32) config (x_parameter ∷ [])
      chain (λ a. ok (chain, a)) (λ a. refl) ((refl, tt), refl, ((refl, tt), refl, (tt, refl, tt)))
      (refl, (refl, (refl, tt))) (refl, (refl, (refl, tt))) (refl, tt)
