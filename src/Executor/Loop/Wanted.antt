-- ===== src/Executor/Loop/Wanted.antt =====
-- The tensors that the operations of src/seal/he_seal_executable.cpp still need.
use he_transformer_research.Base.{
  ℕ, ◌≡◌, refl, Bool, true, false, not, ◌||◌, ◌&&◌, List, [], ◌∷◌, ◌==◌, elem, if◌then◌else◌, Error,
  arith,
}
use he_transformer_research.Passes.Liveness.{LiveNode, Lists}
use he_transformer_research.Passes.Liveness.Exact.{is_dead}
use he_transformer_research.Executor.Loop.{ExecNode}

pub elem-rest : (t f : ℕ) (fs : List ℕ) → elem t (f ∷ fs) ≡ false → elem t fs ≡ false
elem-rest t f fs h = ground arith

pub elem-first : (t f : ℕ) (fs : List ℕ) → elem t (f ∷ fs) ≡ false → (t == f) ≡ false
elem-first t f fs h = ground arith

-- Whether a parameter among the nodes has the tensor as an output.
abbrev pub is_parameter_output : ℕ → List ExecNode → Bool
is_parameter_output t [] = false
is_parameter_output t (n ∷ nodes) =
    (n.is_parameter && elem t n.tensors.outputs) || is_parameter_output t nodes

-- Whether the nodes read the tensor before they make it, or a parameter among them has it.
abbrev pub is_wanted : ℕ → List ExecNode → Bool
is_wanted t [] = false
is_wanted t (n ∷ nodes) =
    let rest = is_wanted t nodes in
    if n.is_parameter
    then elem t n.tensors.outputs || rest
    else elem t n.tensors.inputs || (not (elem t n.tensors.outputs) && rest)

-- The tensors of a node do not belong to a parameter that comes later.
abbrev pub IsScheduled : List ExecNode → Type 0
IsScheduled [] = Unit
IsScheduled (n ∷ nodes) =
    ((t : ℕ)
      → (elem t n.tensors.inputs || elem t n.tensors.outputs) ≡ true
      → is_parameter_output t nodes ≡ false)
    × IsScheduled nodes

abbrev pub live_nodes : List ExecNode → List LiveNode
live_nodes [] = []
live_nodes (n ∷ nodes) = n.tensors ∷ live_nodes nodes

abbrev pub schedule : List ExecNode → List Lists → List (ExecNode × Lists)
schedule (n ∷ nodes) (lists ∷ later) = (n, lists) ∷ schedule nodes later
schedule nodes later = []

wanted_step :
    (p i o q d w : Bool)
    → ((p && o) || q) ≡ false
    → (not i && (o || d)) ≡ true
    → (q ≡ false → d ≡ true → w ≡ false)
    → (if p then o || w else i || (not o && w)) ≡ false
wanted_step true true o q d w h dead later = cc
wanted_step true false true q d w h dead later = cc
wanted_step true false false q d w h dead later = later h dead
wanted_step false true o q d w h dead later = cc
wanted_step false false true q d w h dead later = refl
wanted_step false false false q d w h dead later = later h dead

pub err-cause : (P : Error → Type 0) (e e' : Error) → e ≡ e' → P e → P e'
err-cause P e e' q p = rw (← q) p

pub wanted-skip :
    (p i o w : Bool) → p ≡ true → w ≡ true → (if p then o || w else i || (not o && w)) ≡ true
wanted-skip true i true w h e = refl
wanted-skip true i false w h e = e
wanted-skip false i o w h e = cc

pub wanted-input :
    (p i o w : Bool) → p ≡ false → i ≡ true → (if p then o || w else i || (not o && w)) ≡ true
wanted-input true i o w h e = cc
wanted-input false true o w h e = refl
wanted-input false false o w h e = cc

pub wanted-rest :
    (p i o w : Bool)
    → p ≡ false
    → o ≡ false
    → w ≡ true
    → (if p then o || w else i || (not o && w)) ≡ true
wanted-rest true i o w h e q = cc
wanted-rest false true o w h e q = refl
wanted-rest false false true w h e q = cc
wanted-rest false false false w h e q = q

pub freed-parts : (u d p : Bool) → ((u && d) && not p) ≡ true → (u ≡ true) × (d ≡ true)
freed-parts true true p h = (refl, refl)
freed-parts true false p h = cc
freed-parts false d p h = cc

pub dead_wanted :
    (t : ℕ) (nodes : List ExecNode)
    → is_parameter_output t nodes ≡ false
    → is_dead t (live_nodes nodes) ≡ true
    → is_wanted t nodes ≡ false
dead_wanted t [] h d = refl
dead_wanted t (n ∷ nodes) h d =
    wanted_step n.is_parameter (elem t n.tensors.inputs) (elem t n.tensors.outputs)
      (is_parameter_output t nodes) (is_dead t (live_nodes nodes)) (is_wanted t nodes) h d
      (dead_wanted t nodes)
