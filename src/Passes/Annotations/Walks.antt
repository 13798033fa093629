-- ===== src/Passes/Annotations/Walks.antt =====
-- Walks over the nodes of a function in topological order.
use he_transformer_research.Base.{
  ℕ, ◌≡◌, ◌≢◌, true, false, List, [], ◌∷◌, map, elem, elem-head, elem-tail, All, All-elem,
  All-weaken,
}
use he_transformer_research.Passes.Annotations.{GraphNode}

abbrev pub ids : List GraphNode → List ℕ
ids nodes = map (λ n. n.id) nodes

pub data Edge : List GraphNode → ℕ → ℕ → Type 0 where
  first :
      {n : GraphNode} {nodes : List GraphNode} {u w : ℕ}
      → n.id ≡ u
      → elem w n.targets ≡ true
      → Edge (n ∷ nodes) u w
  later : {n : GraphNode} {nodes : List GraphNode} {u w : ℕ} → Edge nodes u w → Edge (n ∷ nodes) u w

pub data Reaches (nodes : List GraphNode) : ℕ → ℕ → Type 0 where
  here : {v : ℕ} → Reaches nodes v v
  step : {u w v : ℕ} → Edge nodes u w → Reaches nodes w v → Reaches nodes u v

-- Nodes in topological order: each is there once, and its targets come later.
abbrev pub IsOrdered : List GraphNode → Type 0
IsOrdered [] = Unit
IsOrdered (n ∷ nodes) =
    All (λ t. elem t (ids nodes) ≡ true) n.targets
    × (elem n.id (ids nodes) ≡ false)
    × IsOrdered nodes

pub Edge-source : (nodes : List GraphNode) {u w : ℕ} → Edge nodes u w → elem u (ids nodes) ≡ true
Edge-source [] e = elim e [ ]
Edge-source (n ∷ nodes) {u} (first e h) = elem-head u n.id (ids nodes) e
Edge-source (n ∷ nodes) {u} (later e) = elem-tail u n.id (ids nodes) (Edge-source nodes e)

Edge-target :
    (nodes : List GraphNode)
    → IsOrdered nodes
    → {u w : ℕ} → Edge nodes u w
    → elem w (ids nodes) ≡ true
Edge-target [] o e = elim e [ ]
Edge-target (n ∷ nodes) (targets, fresh, o) {u} {w} (first e h) =
    elem-tail w n.id (ids nodes) (All-elem (λ t. elem t (ids nodes) ≡ true) n.targets w targets h)
Edge-target (n ∷ nodes) (targets, fresh, o) {u} {w} (later e) =
    elem-tail w n.id (ids nodes) (Edge-target nodes o e)

pub Reaches-weaken :
    {n : GraphNode} {nodes : List GraphNode} {u v : ℕ} → Reaches nodes u v → Reaches (n ∷ nodes) u v
Reaches-weaken here = here
Reaches-weaken (step e r) = step (later e) (Reaches-weaken r)

-- A walk that does not start at the first node never uses its edges.
pub Reaches-later :
    {n : GraphNode} {nodes : List GraphNode}
    → IsOrdered nodes
    → elem n.id (ids nodes) ≡ false
    → {u v : ℕ} → n.id ≢ u
    → Reaches (n ∷ nodes) u v
    → Reaches nodes u v
Reaches-later o fresh ne here = here
Reaches-later o fresh ne (step (first e h) r) = absurd (ne e)
Reaches-later {n} {nodes} o fresh ne (step (later e) r) =
    step e (Reaches-later o fresh (λ q. let there = Edge-target nodes o e in cc) r)

ids-All : (P : ℕ → Type 0) (nodes : List GraphNode) → All (λ n. P n.id) nodes → All P (ids nodes)
ids-All P [] ps = tt
ids-All P (n ∷ nodes) (p, ps) = (p, ids-All P nodes ps)

-- What holds of the nodes holds of numbers that are among them.
pub nodes-All :
    (P : ℕ → Type 0) (nodes : List GraphNode) (targets : List ℕ)
    → All (λ n. P n.id) nodes
    → All (λ t. elem t (ids nodes) ≡ true) targets
    → All P targets
nodes-All P nodes targets ps =
    All-weaken (λ t h. All-elem P (ids nodes) t (ids-All P nodes ps) h) targets
