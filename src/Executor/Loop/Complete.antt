-- ===== src/Executor/Loop/Complete.antt =====
-- That the loop over the operations of src/seal/he_seal_executable.cpp finds every tensor in its map, though
-- it erases tensors after the last use that src/pass/he_liveness.cpp has found.
use Prim.Native.String.{String}
use he_transformer_research.Base.{
  ℕ, ◌≡◌, refl, sym, ap, ◌∙◌, Bool, true, false, ◌||◌, ◌&&◌, List, [], ◌∷◌, map, elem, All,
  All-elem, All-of, Bool-cases, ◌⊎◌, Result-cases, inl, inr, if◌then◌else◌, Result, ok, err, Error,
  check_failed, require, ◌>>=◌, ◌>>◌,
}
use he_transformer_research.Passes.Liveness.{Lists, he_liveness}
use he_transformer_research.Passes.Liveness.Exact.{
  is_dead, is_freed, IsSeparate, IsExact, he_liveness-IsExact,
}
use he_transformer_research.Executor.Loop.{ExecNode, run_op, run_ops}
use he_transformer_research.Executor.Loop.Wanted.{
  dead_wanted, err-cause, wanted-skip, wanted-input, wanted-rest, freed-parts, is_parameter_output,
  is_wanted, IsScheduled, live_nodes, schedule,
}
use he_transformer_research.Executor.Loop.Found.{
  InMap, inputs_at-found, IsNamed, outputs_at-cases, freed_map, IsNamed-free, InMap-free,
}

module _ {T S : Type 0} (get_name : T → String) (name_of : ℕ → String)
    (create : ℕ → S → Result (T × S)) (calls : ExecNode → List T → List T → S → Result S)
    (enable_client : Bool) where
  abbrev Named : List (ℕ × T) → Type 0
  Named = IsNamed get_name name_of create calls enable_client

  abbrev freed : List ℕ → List (ℕ × T) → List (ℕ × T)
  freed = freed_map get_name name_of create calls enable_client

  module _ (P : Error → Type 0)
      (create_errors : (t : ℕ) (s : S) (e : Error) → create t s ≡ err e → P e)
      (create_names : (t : ℕ) (s : S) (r : T × S)
        → create t s ≡ ok r
        → (u : ℕ) → get_name (r.0) ≡ name_of u
        → u ≡ t)
      (call_errors : (n : ExecNode) (xs ys : List T) (s : S) (e : Error)
        → calls n xs ys s ≡ err e
        → P e) where
    abbrev Ran : ExecNode → List ℕ → List (ℕ × T) → List (ℕ × T) × S × List T → Type 0
    Ran n free map r =
        Named (r.0)
        × ((u : ℕ)
            → elem u free ≡ false
            → InMap u map ⊎ (elem u n.tensors.outputs ≡ true)
            → InMap u (r.0))

    run_op-cases :
        (n : ExecNode) (free : List ℕ) (map : List (ℕ × T)) (s : S) (c : List T)
        → Named map
        → All (λ t. InMap t map) n.tensors.inputs
        → ((e : Error) × (run_op get_name name_of create calls enable_client n free map s c ≡ err e)
            × P e)
          ⊎ ((r : List (ℕ × T) × S × List T) × (run_op get_name name_of create calls enable_client n
                  free map s c
                ≡ ok r)
              × Ran n free map r)
    unfolding run_op
    run_op-cases n free map s c named found =
        let (args, q) = inputs_at-found map n.tensors.inputs found in
        let c' = if enable_client && n.is_output then args else c in
        elim (outputs_at-cases get_name name_of create calls enable_client P create_errors
          create_names n.tensors.outputs map s named) [
            | inl (thrown, q', p) ↦ inl (thrown, simp (q, q'), p)
            | inr ((outs, map', s'), q', (named', keeps, made)) ↦
                elim (Result-cases (calls n args outs s')) [
                  | inl (thrown, q'') ↦
                      inl (thrown, simp (q, q', q''), call_errors n args outs s' thrown q'')
                  | inr (s'', q'') ↦ inr (
                    (freed free map', s'', c'),
                    simp (q, q', q''),
                    (
                      IsNamed-free get_name name_of create calls enable_client free map' named',
                      λ u kept there.
                          InMap-free get_name name_of create calls enable_client u free map' named'
                            kept
                            (elim there [
                              | inl before ↦ keeps u before
                              | inr out ↦ All-elem (λ t. InMap t map') n.tensors.outputs u made out
                            ]),
                    ),
                  )
                ]
          ]

    abbrev ran : List (ExecNode × Lists) → Result (List (ℕ × T) × S × List T) → Result (S × List T)
    ran ops r = (do
      next ← r
      run_ops get_name name_of create calls enable_client ops (next.0) (next.1) (next.2))

    run_ops-first :
        (n : ExecNode) (lists : Lists) (ops : List (ExecNode × Lists)) (map : List (ℕ × T)) (s : S)
        (c : List T) (b : Bool)
        → n.is_op ≡ true
        → n.is_parameter ≡ b
        → run_ops get_name name_of create calls enable_client ((n, lists) ∷ ops) map s c
          ≡ ran ops (
              if b
              then ok (map, s, c)
              else run_op get_name name_of create calls enable_client n lists.free_list map s c)
    unfolding run_ops
    run_ops-first n lists ops map s c b op e =
        ap
          (λ o.
            require o check_failed
            >> ran ops (
                if n.is_parameter
                then ok (map, s, c)
                else run_op get_name name_of create calls enable_client n lists.free_list map s c))
          op
        ∙ ap
            (λ p. ran ops (
              if p
              then ok (map, s, c)
              else run_op get_name name_of create calls enable_client n lists.free_list map s c))
            e

    -- A node that is no op ends the loop.
    run_ops-no_op :
        (n : ExecNode) (lists : Lists) (ops : List (ExecNode × Lists)) (map : List (ℕ × T)) (s : S)
        (c : List T)
        → n.is_op ≡ false
        → run_ops get_name name_of create calls enable_client ((n, lists) ∷ ops) map s c
          ≡ err check_failed
    unfolding run_ops
    run_ops-no_op n lists ops map s c op = rw (op) refl

    found :
        (n : ExecNode) (nodes : List ExecNode) (map : List (ℕ × T))
        → ((t : ℕ) → is_wanted t (n ∷ nodes) ≡ true → InMap t map)
        → n.is_parameter ≡ false
        → All (λ t. InMap t map) n.tensors.inputs
    found n nodes map present p =
        All-of (λ t. InMap t map) n.tensors.inputs
          (λ t i. present t (
            wanted-input n.is_parameter (elem t n.tensors.inputs) (elem t n.tensors.outputs)
              (is_wanted t nodes) p i))

    have :
        (n : ExecNode) (nodes : List ExecNode) (map : List (ℕ × T))
        → ((t : ℕ) → is_wanted t (n ∷ nodes) ≡ true → InMap t map)
        → n.is_parameter ≡ false
        → (t : ℕ) → is_wanted t nodes ≡ true
        → InMap t map ⊎ (elem t n.tensors.outputs ≡ true)
    have n nodes map present p t w = elim (Bool-cases (elem t n.tensors.outputs)) [
      | inl o ↦ inr o
      | inr o ↦ inl (
          present t (
            wanted-rest n.is_parameter (elem t n.tensors.inputs) (elem t n.tensors.outputs)
              (is_wanted t nodes) p o w))
    ]

    kept :
        (persistent : List ℕ) (n : ExecNode) (nodes : List ExecNode) (lists : Lists)
        → ((t : ℕ)
            → (elem t n.tensors.inputs || elem t n.tensors.outputs) ≡ true
            → is_parameter_output t nodes ≡ false)
        → ((t : ℕ) → elem t lists.free_list ≡ is_freed persistent t n.tensors (live_nodes nodes))
        → (t : ℕ) → is_wanted t nodes ≡ true
        → elem t lists.free_list ≡ false
    kept persistent n nodes lists own frees t w = elim (Bool-cases (elem t lists.free_list)) [
      | inr stays ↦ stays
      | inl freed ↦
          let (used, dead) =
            freed-parts (elem t n.tensors.inputs || elem t n.tensors.outputs)
              (is_dead t (live_nodes nodes)) (elem t persistent) (sym (frees t) ∙ freed) in
          let unwanted = dead_wanted t nodes (own t used) dead in cc
    ]

    -- What the run of the rest throws is what the run of all throws.
    run_ops-errors :
        (persistent : List ℕ) (nodes : List ExecNode) (later : List Lists)
        → All (λ n. n.is_op ≡ false → P check_failed) nodes
        → IsScheduled nodes
        → IsExact persistent (live_nodes nodes) later
        → (map : List (ℕ × T)) (s : S) (c : List T) → Named map
        → ((t : ℕ) → is_wanted t nodes ≡ true → InMap t map)
        → (e : Error)
        → run_ops get_name name_of create calls enable_client (schedule nodes later) map s c ≡ err e
        → P e
    unfolding run_ops
    run_ops-errors persistent [] [] checks scheduled exact map s c named present e h = cc
    run_ops-errors persistent [] (l ∷ ls) checks scheduled exact map s c named present e h = cc
    run_ops-errors persistent (n ∷ nodes) [] checks scheduled exact map s c named present e h =
        absurd exact
    run_ops-errors persistent (n ∷ nodes) (lists ∷ later) (check, checks) (own, scheduled)
          (frees, exact) map s c named present e h =
        let rest = schedule nodes later in
        elim (Bool-cases n.is_op) [
          | inr o ↦
              let same : err check_failed ≡ err e =
                sym (run_ops-no_op n lists rest map s c o) ∙ h in
              let equal : check_failed ≡ e = cc in err-cause P check_failed e equal (check o)
          | inl o ↦ elim (Bool-cases n.is_parameter) [
            | inl p ↦
                run_ops-errors persistent nodes later checks scheduled exact map s c named
                  (λ t w. present t (
                    wanted-skip n.is_parameter (elem t n.tensors.inputs) (elem t n.tensors.outputs)
                      (is_wanted t nodes) p w))
                  e (sym (run_ops-first n lists rest map s c true o p) ∙ h)
            | inr p ↦
                let first = run_ops-first n lists rest map s c false o p in
                elim (run_op-cases n lists.free_list map s c named (found n nodes map present p)) [
                  | inl (thrown, q, caused) ↦
                      let same : err thrown ≡ err e = sym (ap (ran rest) q) ∙ sym first ∙ h in
                      let equal : thrown ≡ e = cc in err-cause P thrown e equal caused
                  | inr ((map', s', c'), q, (named', there)) ↦
                      run_ops-errors persistent nodes later checks scheduled exact map' s' c' named'
                        (λ t w.
                          there t (kept persistent n nodes lists own frees t w)
                            (have n nodes map present p t w))
                        e (sym (ap (ran rest) q) ∙ sym first ∙ h)
                ]
          ]
        ]

    -- An exception that leaves the loop over operations in order, with the lists of the liveness pass,
    -- was thrown by the creation of a tensor, by an operation, or at a node that is no op: no tensor is missing in the map,
    -- where it has at first the tensors of the parameters and those that are read but not made, and a
    -- name belongs to one tensor.
    pub run_ops-caused :
        (persistent : List ℕ) (nodes : List ExecNode)
        → All (λ n. n.is_op ≡ false → P check_failed) nodes
        → IsScheduled nodes
        → All IsSeparate (live_nodes nodes)
        → (map : List (ℕ × T)) (s : S) (c : List T) → Named map
        → ((t : ℕ) → is_wanted t nodes ≡ true → InMap t map)
        → (e : Error)
        → run_ops get_name name_of create calls enable_client
            (schedule nodes (he_liveness persistent (live_nodes nodes)).0)
            map
            s
            c
          ≡ err e
        → P e
    run_ops-caused persistent nodes checks scheduled separate map s c named present e h =
        run_ops-errors persistent nodes (he_liveness persistent (live_nodes nodes)).0 checks
          scheduled (he_liveness-IsExact persistent (live_nodes nodes) separate) map s c named
          present e h
