-- ===== src/Passes/Liveness/Exact.antt =====
-- That the pass of src/pass/he_liveness.cpp frees a tensor after its last use.
use he_transformer_research.Base.{
  ℕ, ◌≡◌, refl, ap, ◌∙◌, Bool, true, false, not, ◌||◌, ◌&&◌, List, [], ◌∷◌, ◌++◌, ◌==◌, elem, All,
  Bool-cases, inl, inr, if◌then◌else◌, arith,
}
use he_transformer_research.Passes.Liveness.{
  LiveNode, Lists, declared, without, free_loop, new_loop, live_step, he_liveness,
}

elem-append : (t : ℕ) (xs ys : List ℕ) → elem t (xs ++ ys) ≡ (elem t xs || elem t ys)
elem-append t [] ys = refl
elem-append t (x ∷ xs) ys = ground (arith, elem-append t xs ys)

elem-declared :
    (persistent : List ℕ) (t : ℕ) (xs : List ℕ)
    → elem t (declared persistent xs) ≡ (elem t xs && not (elem t persistent))
unfolding declared
elem-declared persistent t [] = refl
elem-declared persistent t (x ∷ xs) = ground (arith, elem-declared persistent t xs)

elem-without : (t k : ℕ) (xs : List ℕ) → elem t (without k xs) ≡ (elem t xs && not (t == k))
unfolding without
elem-without t k [] = refl
elem-without t k (x ∷ xs) = ground (arith, elem-without t k xs)

free_loop-cons :
    (out : List ℕ) (x : ℕ) (xs live freed : List ℕ) (b : Bool)
    → elem x live ≡ b
    → free_loop out (x ∷ xs) (live, freed)
      ≡ free_loop out xs
          (if b then (live, freed) else (x ∷ live, if elem x out then freed else x ∷ freed))
unfolding free_loop
free_loop-cons out x xs live freed b e =
    ap
      (λ c.
        free_loop out xs
          (if c then (live, freed) else (x ∷ live, if elem x out then freed else x ∷ freed)))
      e

new_loop-cons :
    (x : ℕ) (xs live made : List ℕ) (b : Bool)
    → elem x live ≡ b
    → new_loop (x ∷ xs) (live, made)
      ≡ new_loop xs (if b then (without x live, x ∷ made) else (live, made))
unfolding new_loop
new_loop-cons x xs live made b e =
    ap (λ c. new_loop xs (if c then (without x live, x ∷ made) else (live, made))) e

free_loop-elem :
    (out : List ℕ) (t : ℕ) (xs live freed : List ℕ)
    → (elem t (free_loop out xs (live, freed)).0 ≡ (elem t live || elem t xs))
      × (elem t (free_loop out xs (live, freed)).1
          ≡ (elem t freed || ((elem t xs && not (elem t live)) && not (elem t out))))
unfolding free_loop
free_loop-elem out t [] live freed = (ground arith, ground arith)
free_loop-elem out t (x ∷ xs) live freed =
    let known = free_loop-elem out t xs live freed in
    let fresh = free_loop-elem out t xs (x ∷ live) (if elem x out then freed else x ∷ freed) in
    elim (Bool-cases (elem x live)) [
      | inl e ↦
          let same = free_loop-cons out x xs live freed true e in
          (
            ap (λ r. elem t r.0) same ∙ known.0 ∙ ground arith,
            ap (λ r. elem t r.1) same ∙ known.1 ∙ ground arith,
          )
      | inr e ↦
          let same = free_loop-cons out x xs live freed false e in
          (
            ap (λ r. elem t r.0) same ∙ fresh.0 ∙ ground arith,
            ap (λ r. elem t r.1) same ∙ fresh.1 ∙ ground arith,
          )
    ]

new_loop-elem :
    (t : ℕ) (xs live made : List ℕ)
    → elem t (new_loop xs (live, made)).0 ≡ (elem t live && not (elem t xs))
unfolding new_loop
new_loop-elem t [] live made = ground arith
new_loop-elem t (x ∷ xs) live made = elim (Bool-cases (elem x live)) [
  | inl e ↦
      ap (λ r. elem t r.0) (new_loop-cons x xs live made true e)
      ∙ new_loop-elem t xs (without x live) (x ∷ made)
      ∙ ground (arith, elem-without t x live)
  | inr e ↦
      ap (λ r. elem t r.0) (new_loop-cons x xs live made false e)
      ∙ new_loop-elem t xs live made
      ∙ ground arith
]

and_distributes : (a b c : Bool) → ((a && c) || (b && c)) ≡ ((a || b) && c)
and_distributes true b true = refl
and_distributes true true false = refl
and_distributes true false false = refl
and_distributes false b c = refl

and_twice : (u l p : Bool) → (((u && p) && l) && p) ≡ ((u && l) && p)
and_twice true l true = refl
and_twice true true false = refl
and_twice true false false = refl
and_twice false l p = refl

live_before :
    (l d i o p : Bool)
    → l ≡ (not d && not p)
    → (i ≡ true → o ≡ false)
    → ((l || ((i || o) && not p)) && not (o && not p)) ≡ (not (not i && (o || d)) && not p)
live_before l d i o p e s = ground arith

freed_after :
    (l d u p : Bool) → l ≡ (not d && not p) → ((u && not l) && not p) ≡ ((u && d) && not p)
freed_after l d u p e = ground arith

-- Whether no node reads the tensor before a node makes it.
abbrev pub is_dead : ℕ → List LiveNode → Bool
is_dead t [] = true
is_dead t (n ∷ nodes) = not (elem t n.inputs) && (elem t n.outputs || is_dead t nodes)

-- A node does not read what it makes.
abbrev pub IsSeparate : LiveNode → Type 0
IsSeparate n = (t : ℕ) → elem t n.inputs ≡ true → elem t n.outputs ≡ false

abbrev pub is_freed : List ℕ → ℕ → LiveNode → List LiveNode → Bool
is_freed persistent t n nodes =
    ((elem t n.inputs || elem t n.outputs) && is_dead t nodes) && not (elem t persistent)

-- The freed tensors of each node are those that it reads or makes and that are dead after it.
abbrev pub IsExact : List ℕ → List LiveNode → List Lists → Type 0
IsExact persistent [] [] = Unit
IsExact persistent (n ∷ nodes) (lists ∷ later) =
    ((t : ℕ) → elem t lists.free_list ≡ is_freed persistent t n nodes)
    × IsExact persistent nodes later
IsExact persistent nodes later = ⊥

module _ (persistent : List ℕ) where
  step-elem :
      (n : LiveNode) (live : List ℕ) (t : ℕ)
      → let out = live_step persistent n live in
        (elem t (out.1) ≡ (
          (elem t live || ((elem t n.inputs || elem t n.outputs) && not (elem t persistent)))
          && not (elem t n.outputs && not (elem t persistent))))
        × (elem t (out.0).free_list ≡ (
            ((elem t n.inputs || elem t n.outputs) && not (elem t live))
            && not (elem t persistent)))
  unfolding live_step
  step-elem n live t =
      let ins = declared persistent n.inputs in
      let outs = declared persistent n.outputs in
      let i = elem-declared persistent t n.inputs in
      let o = elem-declared persistent t n.outputs in
      let both = elem-append t ins outs in
      let f = free_loop-elem persistent t (ins ++ outs) live [] in
      let e = new_loop-elem t outs (free_loop persistent (ins ++ outs) (live, [])).0 [] in
      let p = elem t persistent in
      let used =
        both
        ∙ ap (λ b. b || elem t outs) i
        ∙ ap (λ b. (elem t n.inputs && not p) || b) o
        ∙ and_distributes (elem t n.inputs) (elem t n.outputs) (not p) in
      (
        e
            ∙ ap (λ b. b && not (elem t outs)) (f.0 ∙ ap (λ b. elem t live || b) used)
            ∙ ap (λ b. (elem t live || ((elem t n.inputs || elem t n.outputs) && not p)) && not b)
                o,
        f.1
            ∙ ap (λ b. (b && not (elem t live)) && not p) used
            ∙ and_twice (elem t n.inputs || elem t n.outputs) (not (elem t live)) (not p),
      )

  -- The tensors that are live before the nodes are those that are not dead.
  live-elem :
      (nodes : List LiveNode) (t : ℕ)
      → All IsSeparate nodes
      → elem t (he_liveness persistent nodes).1 ≡ (not (is_dead t nodes) && not (elem t persistent))
  unfolding he_liveness
  live-elem [] t separate = refl
  live-elem (n ∷ nodes) t (s, separate) =
      let live = (he_liveness persistent nodes).1 in
      (step-elem n live t).0
      ∙ live_before (elem t live) (is_dead t nodes) (elem t n.inputs) (elem t n.outputs)
          (elem t persistent) (live-elem nodes t separate) (s t)

  -- In a function whose nodes do not read what they make, the pass frees at each node the tensors that
  -- the node reads or makes, that are not outputs of the function, and that no later node reads before
  -- a node makes them again: no tensor is freed too early, and each is freed at its last use.
  pub he_liveness-IsExact :
      (nodes : List LiveNode)
      → All IsSeparate nodes
      → IsExact persistent nodes (he_liveness persistent nodes).0
  unfolding he_liveness
  he_liveness-IsExact [] separate = tt
  he_liveness-IsExact (n ∷ nodes) (s, separate) =
      let live = (he_liveness persistent nodes).1 in
      (
        λ t.
            (step-elem n live t).1
            ∙ freed_after (elem t live) (is_dead t nodes) (elem t n.inputs || elem t n.outputs)
                (elem t persistent) (live-elem nodes t separate),
        he_liveness-IsExact nodes separate,
      )
